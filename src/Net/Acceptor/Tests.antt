-- ===== src/Net/Acceptor/Tests.antt =====
-- Runs of l4lb/src/net/Acceptor.cpp on concrete inputs.
use l.Net.Acceptor.{Acceptor, handle_read}
use l.Net.Acceptor.Accepts.{handle_read-exhausted, handle_read-hand_over}
use l.Base.{Error, List, Option, [], false, inl, none, refl, true, ℕ, ◌++◌, ◌∷◌, ◌≡◌}
use l.Net.System.{Reply, eintr, emfile, failed, returned, sound_context, sound_context-Works}
use l.Net.Channel

abbrev listening : Acceptor
listening = record {
  channel = Channel.create 3;
  listening = true;
  edge_triggered = false;
  idle = true;
  dropped = 0;
  errors = [];
}

-- An owner that keeps the descriptors that it is handed.
abbrev keep : List ℕ → ℕ → List ℕ × Option Error
keep fds fd = (fd ∷ fds, none)

abbrev answers : List (Reply ℕ)
answers = returned 5 ∷ failed eintr ∷ returned 6 ∷ []

handle_read-hand_over_example :
    handle_read keep sound_context listening true answers [] ≡ (listening, 6 ∷ 5 ∷ [], none)
handle_read-hand_over_example =
    handle_read-hand_over keep (λ s fd. refl) sound_context sound_context-Works listening true
      answers [] (refl, tt)

handle_read-exhausted_example :
    handle_read keep sound_context listening true (answers ++ (failed emfile ∷ returned 7 ∷ [])) []
    ≡ (record listening { idle = true; dropped = 1; errors = emfile ∷ [] }, 6 ∷ 5 ∷ [], none)
handle_read-exhausted_example =
    handle_read-exhausted keep (λ s fd. refl) sound_context sound_context-Works listening true
      answers emfile 7 [] [] (refl, tt) (inl refl)
