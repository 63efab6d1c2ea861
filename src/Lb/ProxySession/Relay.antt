-- ===== src/Lb/ProxySession/Relay.antt =====
-- ProxySession.cpp: one direction of the exchange, from the connection `a` that is read to the
-- connection `b` that is written.
use l.Base.{
  List, [], ap, append-nil, append_assoc, arith, false, length, length-append, not, refl, sym,
  take_all, true, ℕ, ◌&&◌, ◌++◌, ◌∙◌, ◌≡◌, ◌≤◌,
}
use l.Net.Buffer.{Buffer}
use l.Net.Buffer
use l.Net.Socket
use l.Net.TcpConnection.{TcpConnection, read_batch_size}
use l.Net.TcpConnection.Invariant.{
  Live, pending, pending-nil, stream, with_reading, with_reading-Live,
}
use l.Net.TcpConnection.Closing.{settled, settled-Live}
use l.Net.TcpConnection.Reading.{eof-Live, input-Live}
use l.Lb.ProxySession.{all_bytes, emptied}
use l.Net.Buffer.Contents.{readable_bytes-length}
use l.Net.Buffer.Retrieve.{bytes_at-contents, contents-retrieve_all, retrieve_all-Takes}
use l.Net.TcpConnection.Sending.{waits_in, with_output, with_output-Live}
use l.Net.TcpConnection.Writing.{drained-Live, wrote-Live}

-- Everything read from `a` has gone to `b`, sent or waiting. `a` is read exactly while its stream
-- has not ended and nothing waits at `b`; `b` has been told to end its stream exactly if the stream
-- of `a` has ended; at most one batch waits.
pub record Relay (a b : TcpConnection) : Type 0 where
  pub carried : a.socket.received ≡ stream b
  pub reading_rule : a.reading ≡ (not a.received_eof && not (pending b))
  pub ending : b.shutdown_requested ≡ a.received_eof
  pub bounded : length (Buffer.contents b.output) ≤ read_batch_size
  pub passed_on : Buffer.contents a.input ≡ []

-- Both directions of an exchange between two connected ends.
pub record Joined (a b : TcpConnection) : Type 0 where
  pub source : Live a
  pub sink : Live b
  pub there : Relay a b
  pub back : Relay b a

pub Joined-swap : {a b : TcpConnection} → Joined a b → Joined b a
Joined-swap j = record { source = j.sink; sink = j.source; there = j.back; back = j.there }

pub all_bytes-contents : (b : Buffer) → Buffer.IsValid b → all_bytes b ≡ Buffer.contents b
all_bytes-contents b v =
    bytes_at-contents b v (Buffer.readable_bytes b) (omega (arith, readable_bytes-length b v))
    ∙ take_all (Buffer.readable_bytes b) (Buffer.contents b)
        (omega (arith, readable_bytes-length b v))

module _ (a b : TcpConnection) (j : Joined a b) where
  open j use {source, sink, there, back}

  pub no_eof : a.reading ≡ true → a.received_eof ≡ false
  no_eof r = ground (arith, source.eof_stops, r)

  pub not_asked : a.reading ≡ true → b.shutdown_requested ≡ false
  not_asked r = there.ending ∙ no_eof r

  pub nothing_waits : a.reading ≡ true → Buffer.contents b.output ≡ []
  nothing_waits r = pending-nil b sink.out_valid (ground (arith, there.reading_rule, r, no_eof r))

  -- The end of the stream of `a`: `b` is told, and sends its own end once nothing waits.
  pub eof-Joined :
      a.reading ≡ true
      → Joined
          (with_reading false (record a { received_eof = true }))
          (settled (record b { shutdown_requested = true }))
  eof-Joined r = record {
    source = eof-Live a source r;
    sink = settled-Live b sink;
    there = record {
      carried = there.carried;
      reading_rule = refl;
      ending = refl;
      bounded = there.bounded;
      passed_on = there.passed_on;
    };
    back = record {
      carried = back.carried;
      reading_rule = back.reading_rule;
      ending = back.ending;
      bounded = back.bounded;
      passed_on = back.passed_on;
    };
  }

  -- A batch read from `a` and taken on by `b`: `a` pauses exactly if something waits at `b`.
  module _ (input : Buffer) (bytes : List ℕ) (v : Buffer.IsValid input) (output : Buffer)
      (sent : List ℕ) (w : Buffer.IsValid output) where
    abbrev pub heard : TcpConnection
    heard = emptied (record a { input = input; socket = Socket.receive a.socket bytes })

    abbrev pub paused : TcpConnection
    paused = with_reading (not (waits_in output)) heard

    pub heard-Live : Live heard
    heard-Live =
        input-Live a source (Buffer.retrieve_all input) bytes (retrieve_all-Takes input v).valid

    pub message-Joined :
        a.reading ≡ true
        → length bytes ≤ read_batch_size
        → sent ++ Buffer.contents output ≡ Buffer.contents b.output ++ bytes
        → Joined paused (with_output output sent b)
    message-Joined r h e = record {
      source =
          with_reading-Live heard (not (waits_in output)) heard-Live (ground (arith, no_eof r));
      sink = with_output-Live b sink output sent w (ground (arith, sink.fin_rule, not_asked r));
      there = record {
        carried =
            ap (λ l. l ++ bytes) there.carried
            ∙ append_assoc b.socket.delivered (Buffer.contents b.output) bytes
            ∙ ap (◌++◌ b.socket.delivered) (sym e)
            ∙ sym (append_assoc b.socket.delivered sent (Buffer.contents output));
        reading_rule = ground (arith, no_eof r);
        ending = there.ending;
        bounded = omega (
          arith,
          ap length e,
          length-append sent (Buffer.contents output),
          length-append (Buffer.contents b.output) bytes,
          ap length (nothing_waits r),
        );
        passed_on = contents-retrieve_all input v;
      };
      back = record {
        carried = back.carried;
        reading_rule = back.reading_rule;
        ending = back.ending;
        bounded = back.bounded;
        passed_on = back.passed_on;
      };
    }

  pub wrote-Joined :
      (output : Buffer) (sent : List ℕ)
      → Buffer.IsValid output
      → sent ++ Buffer.contents output ≡ Buffer.contents b.output
      → waits_in output ≡ true
      → Joined a (record b { output = output; socket = Socket.deliver b.socket sent })
  wrote-Joined output sent w e q = record {
    source = source;
    sink = wrote-Live b sink output w sent busy q;
    there = record {
      carried =
          there.carried
          ∙ ap (◌++◌ b.socket.delivered) (sym e)
          ∙ sym (append_assoc b.socket.delivered sent (Buffer.contents output));
      reading_rule = there.reading_rule ∙ ap (λ p. not a.received_eof && not p) (busy ∙ sym q);
      ending = there.ending;
      bounded =
          omega (arith, ap length e, length-append sent (Buffer.contents output), there.bounded);
      passed_on = there.passed_on;
    };
    back = record {
      carried = back.carried;
      reading_rule = back.reading_rule;
      ending = back.ending;
      bounded = back.bounded;
      passed_on = back.passed_on;
    };
  }
    where
      busy : pending b ≡ true
      busy = ground (
        arith,
        q,
        readable_bytes-length output w,
        readable_bytes-length b.output sink.out_valid,
        ap length e,
        length-append sent (Buffer.contents output),
      )

  pub drained-Joined :
      (output : Buffer)
      → Buffer.IsValid output
      → Buffer.contents output ≡ []
      → Joined
          (with_reading (not a.received_eof) a)
          (settled (with_output output (Buffer.contents b.output) b))
  drained-Joined output w e = record {
    source = with_reading-Live a (not a.received_eof) source (ground arith);
    sink = drained-Live b sink output w (Buffer.contents b.output) idle;
    there = record {
      carried =
          there.carried
          ∙ sym (append-nil (b.socket.delivered ++ Buffer.contents b.output))
          ∙ ap (◌++◌ (b.socket.delivered ++ Buffer.contents b.output)) (sym e);
      reading_rule = ground (arith, idle);
      ending = there.ending;
      bounded = omega (arith, ap length e);
      passed_on = there.passed_on;
    };
    back = record {
      carried = back.carried;
      reading_rule = back.reading_rule;
      ending = back.ending;
      bounded = back.bounded;
      passed_on = back.passed_on;
    };
  }
    where
      idle : waits_in output ≡ false
      idle = ground (arith, readable_bytes-length output w, ap length e)
