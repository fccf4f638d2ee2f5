-- ===== src/Connection/Stream.antt =====
-- What reaches the client when a request handler writes and flushes in turn.
use nawa.Common.{
  ◌≡◌, refl, sym, ap, ◌∙◌, Bool, true, false, not, ◌&&◌, List, [], ◌∷◌, ◌++◌, append_assoc,
  append-nil, Option, if◌then◌else◌, Bytes, ℕ,
}
use nawa.Util.Time.{Tm}
use nawa.Connection.State.{Connection}
use nawa.Connection.Response.{write_stream, flush_response, get_headers, head_text, get_full_http}

-- `connection.responseStream() << text` and `connection.flushResponse()`.
pub data Action : Type 0 where
  write : Bytes → Action
  flush : Action

pub written : List Action → Bytes
written [] = []
written (write text ∷ actions) = text ++ written actions
written (flush ∷ actions) = written actions

unfoldable pub flushes : List Action → Bool
flushes [] = false
flushes (write text ∷ actions) = flushes actions
flushes (flush ∷ actions) = true

-- What a connection still holds back.
abbrev pub pending : Connection → Bytes
pending c = c.body_string ++ c.response_stream

module _ (gmtime : ℕ → Option Tm) where
  -- The connection after the actions, and the bytes that the flushes sent.
  unfoldable pub run : List Action → Connection → Connection × Bytes
  run [] c = (c, [])
  run (write text ∷ actions) c = run actions (write_stream text c)
  run (flush ∷ actions) c =
      let (c', f) = flush_response gmtime c in
      let (c'', sent) = run actions c' in (c'', get_full_http f ++ sent)

  abbrev pub head : Connection → Bytes
  head c = head_text (get_headers gmtime true c)

  not_yet : (b : Bool) (text : Bytes) → (if not b && false then text else []) ≡ []
  not_yet true text = refl
  not_yet false text = refl

  first_flush :
      (b : Bool) (text : Bytes) → (if b then [] else text) ≡ (if not b && true then text else [])
  first_flush true text = refl
  first_flush false text = refl

  -- Whatever is written and flushed, and in which order: the bytes sent and those still pending are
  -- the headers, once, if there is a first flush among the actions, then what was pending before,
  -- then what was written, in order and without loss or repetition.
  pub run-written :
      (actions : List Action) (c : Connection)
      → let (c', sent) = run actions c in
        sent ++ pending c'
        ≡ (if not c.is_flushed && flushes actions then head c else [])
          ++ (pending c ++ written actions)
  unfolding run written flushes write_stream flush_response get_full_http
  run-written [] c = rw (not_yet c.is_flushed (head c)) (sym (append-nil (pending c)))
  run-written (write text ∷ actions) c =
      run-written actions (write_stream text c)
      ∙ ap (λ p. (if not c.is_flushed && flushes actions then head c else []) ++ p)
          (ap (λ p. p ++ written actions) (sym (append_assoc c.body_string c.response_stream text))
            ∙ append_assoc (pending c) text (written actions))
  run-written (flush ∷ actions) c =
      let c' = (flush_response gmtime c).0 in
      let full = get_full_http (flush_response gmtime c).1 in
      let (c'', sent) = run actions c' in
      append_assoc full sent (pending c'')
      ∙ ap (◌++◌ full) (run-written actions c')
      ∙ append_assoc (if c.is_flushed then [] else head c) (pending c) (written actions)
      ∙ ap (λ p. p ++ (pending c ++ written actions)) (first_flush c.is_flushed (head c))
