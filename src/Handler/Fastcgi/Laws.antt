-- ===== src/Handler/Fastcgi/Laws.antt =====
-- Both handlers send the same response: one head, then the bodies of the flushes.
use nawa.Common.{
  ◌≡◌, refl, sym, ap, ◌∙◌, Bool, true, false, not, ◌&&◌, List, [], ◌∷◌, ◌++◌, append_assoc, Option,
  inl, inr, Bool-cases, if◌then◌else◌, Bytes, ℕ, codes,
}
use nawa.Util.Time.{Tm}
use nawa.Connection.State.{Connection}
use nawa.Connection.Response.{
  Flush, write_stream, flush_response, get_headers, head_text, get_full_http,
}
use nawa.Connection.Status.{get_status_string}
use nawa.Connection.Stream.{Action, write, flush, flushes}
use nawa.Handler.Http
use nawa.Handler.Http.{Output, send_status, send_headers, http_flush, http_flushes}
use nawa.Handler.Fastcgi.{fastcgi_flush, dumped}

pub bodies : List Flush → Bytes
bodies [] = []
bodies (f ∷ out) = f.body ++ bodies out

-- One `write` for each flush.
pub writes : List Flush → List Output
writes [] = []
writes (f ∷ out) = Http.send_body f.body ∷ writes out

no_head {ℓ} :
    {A : Type ℓ} (b : Bool) (head : List A) → (if not b && false then head else []) ++ [] ≡ []
no_head true head = refl
no_head false head = refl

abbrev unless {ℓ} : {A : Type ℓ} → Bool → List A → List A
unless b head = if b then [] else head

first {ℓ} :
    {A : Type ℓ} (b : Bool) (head : List A) → unless b head ≡ (if not b && true then head else [])
first true head = refl
first false head = refl

fastcgi_flush_lem :
    (f : Flush)
    → fastcgi_flush f
      ≡ unless f.flushed_before
          ((codes "status: " ++ (get_status_string f ++ 13 ∷ 10 ∷ [])) ++ head_text f.headers)
        ++ f.body
unfolding fastcgi_flush get_full_http get_status_string
fastcgi_flush_lem f = elim (Bool-cases f.flushed_before) [
  | inl before ↦ rw before refl
  | inr fresh ↦ rw fresh (
      sym (
        append_assoc (codes "status: " ++ (get_status_string f ++ 13 ∷ 10 ∷ []))
          (head_text f.headers) f.body))
]

http_flush_lem :
    (f : Flush)
    → http_flush f
      ≡ unless f.flushed_before (send_status f.status ∷ send_headers f.headers ∷ [])
        ++ Http.send_body f.body ∷ []
unfolding http_flush
http_flush_lem f = elim (Bool-cases f.flushed_before) [
  | inl before ↦ rw before refl
  | inr fresh ↦ rw fresh refl
]

module _ (gmtime : ℕ → Option Tm) where
  -- What the flush callback is handed as an application writes and flushes.
  unfoldable pub flushed_by : List Action → Connection → List Flush
  flushed_by [] c = []
  flushed_by (write text ∷ actions) c = flushed_by actions (write_stream text c)
  flushed_by (flush ∷ actions) c =
      let (c', f) = flush_response gmtime c in f ∷ flushed_by actions c'

  abbrev pub status_line : Connection → Bytes
  status_line c =
      codes "status: " ++ (get_status_string (flush_response gmtime c).1 ++ 13 ∷ 10 ∷ [])

  abbrev pub fastcgi_head : Connection → Bytes
  fastcgi_head c = status_line c ++ head_text (get_headers gmtime true c)

  abbrev pub http_head : Connection → List Output
  http_head c = send_status c.response_status ∷ send_headers (get_headers gmtime true c) ∷ []

  abbrev pub if_first {ℓ} : {A : Type ℓ} → Connection → List Action → List A → List A
  if_first c actions head = if not c.is_flushed && flushes actions then head else []

  -- Whatever is written and flushed in turn: where there is a first flush, the FastCGI handler sends
  -- the status and the headers as text and the HTTP handler sets them, each once and before all
  -- else, and then both send the bodies of the flushes in their order.
  pub flushed_by-heads :
      (actions : List Action) (c : Connection)
      → let out = flushed_by actions c in
        (dumped out ≡ if_first c actions (fastcgi_head c) ++ bodies out)
        × (http_flushes out ≡ if_first c actions (http_head c) ++ writes out)
  unfolding flushed_by flushes bodies writes dumped http_flushes write_stream flush_response
      fastcgi_flush http_flush get_full_http get_status_string
  flushed_by-heads [] c =
      (sym (no_head c.is_flushed (fastcgi_head c)), sym (no_head c.is_flushed (http_head c)))
  flushed_by-heads (write text ∷ actions) c = flushed_by-heads actions (write_stream text c)
  flushed_by-heads (flush ∷ actions) c =
      let (c', f) = flush_response gmtime c in
      let (fastcgi, http) = flushed_by-heads actions c' in
      let out = flushed_by actions c' in
      (
        ap (λ s. s ++ dumped out) (fastcgi_flush_lem f)
            ∙ append_assoc (unless f.flushed_before (fastcgi_head c)) f.body (dumped out)
            ∙ ap (λ d. unless f.flushed_before (fastcgi_head c) ++ (f.body ++ d)) fastcgi
            ∙ ap (λ h. h ++ (f.body ++ bodies out)) (first c.is_flushed (fastcgi_head c)),
        ap (λ s. s ++ http_flushes out) (http_flush_lem f)
            ∙ append_assoc (unless f.flushed_before (http_head c)) (Http.send_body f.body ∷ [])
                (http_flushes out)
            ∙ ap (λ d. unless f.flushed_before (http_head c) ++ (Http.send_body f.body ∷ d)) http
            ∙ ap (λ h. h ++ (Http.send_body f.body ∷ writes out))
                (first c.is_flushed (http_head c)),
      )
