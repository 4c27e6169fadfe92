-- ===== src/Workflow/Handler/Capture.antt =====
-- responseCapture of internal/workflow/handler.go shows the response that the client gets.
use sqlproxy.Prelude.{
  ℕ, ◌≡◌, refl, sym, ap, ◌∙◌, List, [], ◌∷◌, ◌++◌, Text, Bool, true, false, Option, none, some, All,
  Option-cases, Bool-cases, inl, inr,
}
use mathlib.Core.List.{append_assoc, append-nil}
use sqlproxy.Workflow.Handler.Writer.{
  is_informational, allows_body, Response, Write, set_header, write_header, write, with_status,
  with_status_open, with_status_done, perform, perform_all, ResponseCapture, capture_of,
  capture_write_header, capture_write, capture, capture_all,
}

-- The status of a response as a number, 0 before it is written.
abbrev pub status_number : Option ℕ → ℕ
status_number none = 0
status_number (some n) = n

abbrev pub is_written : Option ℕ → Bool
is_written none = false
is_written (some n) = true

-- A call that writes no informational status.
abbrev pub IsFinal : Write → Type 0
IsFinal (set_header name value) = Unit
IsFinal (write_header code) = is_informational code ≡ false
IsFinal (write b) = Unit

-- A capture that agrees with the writer behind it, which had sent `before`.
pub record IsFaithful (before : Text) (c : ResponseCapture) : Type 0 where
  pub status : c.status_code ≡ status_number c.response.status
  pub written : c.wrote_header ≡ is_written c.response.status
  pub body : allows_body c.response.status ≡ true → c.response.body ≡ before ++ c.body

write_header-IsFaithful :
    (before : Text) (code : ℕ) (c : ResponseCapture)
    → IsFinal (write_header code)
    → IsFaithful before c
    → IsFaithful before (capture (write_header code) c)
unfolding capture perform capture_write_header allows_body
write_header-IsFaithful before code c final f = elim (Option-cases c.response.status) [
  | inl n ↦
      let fresh : c.wrote_header ≡ false = f.written ∙ ap is_written n in
      let same = f.body (ap allows_body n) in
      let opened = with_status_open code c.response n final in
      simp (capture_write_header, fresh)
        (record {
          status = simp opened refl;
          written = simp opened refl;
          body = λ a. simp opened same;
        })
  | inr (old, n) ↦
      let seen : c.wrote_header ≡ true = f.written ∙ ap is_written n in
      simp (capture_write_header, seen) f
]

write-IsFaithful :
    (before b : Text) (c : ResponseCapture)
    → IsFaithful before c
    → IsFaithful before (capture (write b) c)
unfolding capture perform capture_write is_informational
write-IsFaithful before b c f = elim (Option-cases c.response.status) [
  | inl n ↦
      let fresh : c.wrote_header ≡ false = f.written ∙ ap is_written n in
      let same = f.body (ap allows_body n) in
      let opened = with_status_open 200 c.response n refl in
      simp (capture_write, fresh)
        (record {
          status = simp opened refl;
          written = simp opened refl;
          body = λ a. simp opened (ap (λ t. t ++ b) same ∙ append_assoc before c.body b);
        })
  | inr (old, n) ↦
      let seen : c.wrote_header ≡ true = f.written ∙ ap is_written n in
      let done = with_status_done 200 old c.response n in
      simp (capture_write, seen)
        (record {
          status = simp done f.status;
          written = simp done (sym seen ∙ f.written);
          body = λ a.
              let allowed : allows_body (some old) ≡ true =
                ap allows_body (sym n) ∙ (simp done at a) in
              let allowed' = ap allows_body n ∙ allowed in
              simp (done, allowed')
                (ap (λ t. t ++ b) (f.body allowed') ∙ append_assoc before c.body b);
        })
]

capture-IsFaithful :
    (before : Text) (w : Write) (c : ResponseCapture)
    → IsFinal w
    → IsFaithful before c
    → IsFaithful before (capture w c)
unfolding capture perform
capture-IsFaithful before (set_header n v) c final f = record {
  status = f.status;
  written = f.written;
  body = f.body;
}
capture-IsFaithful before (write_header code) c final f =
    write_header-IsFaithful before code c final f
capture-IsFaithful before (write b) c final f = write-IsFaithful before b c f

capture_all-IsFaithful :
    (before : Text) (ws : List Write) (c : ResponseCapture)
    → All IsFinal ws
    → IsFaithful before c
    → IsFaithful before (capture_all ws c)
unfolding capture_all
capture_all-IsFaithful before [] c final f = f
capture_all-IsFaithful before (w ∷ ws) c (here, final) f =
    capture_all-IsFaithful before ws (capture w c) final (capture-IsFaithful before w c here f)

-- The writer behind a capture gets what it would get without one.
capture_transparent :
    (before : Text) (w : Write) (c : ResponseCapture)
    → IsFaithful before c
    → (capture w c).response ≡ perform w c.response
unfolding capture capture_write_header capture_write perform with_status
capture_transparent before (set_header n v) c f = refl
capture_transparent before (write_header code) c f = elim (Option-cases c.response.status) [
  | inl n ↦ rw (f.written, n) refl
  | inr (old, n) ↦ rw (f.written, n) refl
]
capture_transparent before (write b) c f = elim (Bool-cases c.wrote_header) [
  | inl e ↦ rw e refl
  | inr e ↦ rw e refl
]

capture_all_transparent :
    (before : Text) (ws : List Write) (c : ResponseCapture)
    → All IsFinal ws
    → IsFaithful before c
    → (capture_all ws c).response ≡ perform_all ws c.response
unfolding capture_all perform_all
capture_all_transparent before [] c final f = refl
capture_all_transparent before (w ∷ ws) c (here, final) f =
    capture_all_transparent before ws (capture w c) final (capture-IsFaithful before w c here f)
    ∙ ap (perform_all ws) (capture_transparent before w c f)

-- On a response that is not begun, calls through the capturing writer that write no informational
-- status (100 to 199 but 101) leave the response that they would leave without it, and the capture
-- holds its status and, where that allows a body, the body that they added.
pub capture_all-perform_all :
    (ws : List Write) (r : Response)
    → All IsFinal ws
    → r.status ≡ none
    → let c = capture_all ws (capture_of r) in
      (c.response ≡ perform_all ws r)
      × (c.status_code ≡ status_number (perform_all ws r).status)
      × (allows_body (perform_all ws r).status ≡ true → (perform_all ws r).body ≡ r.body ++ c.body)
unfolding capture_of
capture_all-perform_all ws r final h =
    let new : IsFaithful r.body (capture_of r) = record {
      status = rw h refl;
      written = rw h refl;
      body = λ a. sym (append-nil r.body);
    } in
    let same = capture_all_transparent r.body ws (capture_of r) final new in
    let f = capture_all-IsFaithful r.body ws (capture_of r) final new in
    (
      same,
      f.status ∙ ap (λ x. status_number x.status) same,
      λ a. sym (ap (λ x. x.body) same) ∙ f.body (ap (λ x. allows_body x.status) same ∙ a),
    )

-- On a response that is not begun, an informational status, a final status and a body answer with
-- the final status; through the capturing writer they answer with 200.
pub informational_status_lost :
    (early code : ℕ) (b : Text) (r : Response)
    → r.status ≡ none
    → is_informational early ≡ true
    → is_informational code ≡ false
    → let ws = write_header early ∷ write_header code ∷ write b ∷ [] in
      ((perform_all ws r).status ≡ some code)
      × ((capture_all ws (capture_of r)).response.status ≡ some 200)
unfolding perform_all perform capture_all capture capture_write_header capture_write capture_of
    with_status
informational_status_lost early code b r n i f =
    (simp (with_status, n, i, f) refl, simp (with_status, n, i) refl)
