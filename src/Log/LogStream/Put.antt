-- ===== src/Log/LogStream/Put.antt =====
-- `LogStream::operator<<`, one definition for each type of its argument.
use l.Base.{Bool, Bytes, Option, [], codes, if◌then◌else◌, none, pos, some, ℕ, ℤ, ◌∷◌}
use l.Log.LogStream.{LogStream, append_text, format_integer}

unfoldable pub bool : Bool → LogStream → LogStream
bool v = append_text (if v then codes "1" else codes "0")

unfoldable pub int : ℤ → LogStream → LogStream
int num = format_integer num

-- A short is cast to int, which keeps its value.
unfoldable pub short : ℤ → LogStream → LogStream
unfolding int
short num = int num

unfoldable pub unsigned_int : ℕ → LogStream → LogStream
unsigned_int num = format_integer (pos num)

unfoldable pub unsigned_short : ℕ → LogStream → LogStream
unfolding unsigned_int
unsigned_short num = unsigned_int num

unfoldable pub long : ℤ → LogStream → LogStream
long num = format_integer num

unfoldable pub unsigned_long : ℕ → LogStream → LogStream
unsigned_long num = format_integer (pos num)

unfoldable pub long_long : ℤ → LogStream → LogStream
long_long num = format_integer num

unfoldable pub unsigned_long_long : ℕ → LogStream → LogStream
unsigned_long_long num = format_integer (pos num)

-- `shown` is what snprintf prints for the format "%g".
unfoldable pub double {ℓ} : {Double : Type ℓ} → (Double → Bytes) → Double → LogStream → LogStream
double shown num = append_text (shown num)

-- A float is cast to double.
unfoldable pub float {ℓ κ} :
    {Float : Type ℓ} {Double : Type κ}
    → (Float → Double)
    → (Double → Bytes)
    → Float
    → LogStream
    → LogStream
unfolding double
float cast shown num = double shown (cast num)

unfoldable pub char : ℕ → LogStream → LogStream
char v = append_text (v ∷ [])

-- `none` is a null pointer.
unfoldable pub c_string : Option Bytes → LogStream → LogStream
c_string none = append_text (codes "(null)")
c_string (some str) = append_text str

unfoldable pub string : Bytes → LogStream → LogStream
string v = append_text v
