-- ===== src/Cache/Accounting.antt =====
-- The size that an endpoint of internal/cache/cache.go records is the sum over the keys it tracks.
use sqlproxy.Prelude.{
  ℕ, ◌+◌, ◌-◌, ◌≤◌, ◌≡◌, ap, ◌∙◌, inl, inr, arith, Text, Option-cases, lookup, insert, delete,
  Distinct, delete-Distinct, insert-Distinct, total, of_option, total-delete, total-insert, pos,
  sub_size_pos, add_size_pos,
}
use sqlproxy.Cache.Endpoint.{EntryMeta, EndpointCache, forget, remember, without_old}

abbrev pub meta_size : EntryMeta → ℕ
meta_size m = m.size_bytes

abbrev pub tracked : EndpointCache → ℕ
tracked ep = total meta_size ep.keys

pub record IsAccounted (ep : EndpointCache) : Type 0 where
  pub distinct : Distinct ep.keys
  pub size : ep.size_bytes ≡ pos (tracked ep)

module _ (key : Text) (ep : EndpointCache) (h : IsAccounted ep) where
  -- Deleting a key takes its size off the sum.
  pub tracked-forget :
      tracked (forget key ep) + of_option meta_size (lookup key ep.keys) ≡ tracked ep
  unfolding forget
  tracked-forget = elim (Option-cases (lookup key ep.keys)) [
    | inl e ↦ rw (e, forget) (omega arith)
    | inr (m, e) ↦ rw (e, forget) (rw e at (total-delete meta_size key ep.keys h.distinct))
  ]

  pub forget-IsAccounted : IsAccounted (forget key ep)
  unfolding forget
  forget-IsAccounted = elim (Option-cases (lookup key ep.keys)) [
    | inl e ↦ rw (e, forget) h
    | inr (m, e) ↦
        rw (e, forget)
          (let sum : total meta_size (delete key ep.keys) + m.size_bytes ≡ tracked ep =
              rw e at (total-delete meta_size key ep.keys h.distinct) in
            record {
              distinct = delete-Distinct key ep.keys h.distinct;
              size =
                  rw h.size
                    (sub_size_pos (tracked ep) m.size_bytes (omega arith) ∙ ap pos (omega arith));
            })
  ]

  without_old-tracked :
      (m : EntryMeta)
      → (n : ℕ) × (without_old key ep ≡ pos n)
        × (n + m.size_bytes ≡ total meta_size (insert key m ep.keys))
  unfolding without_old
  without_old-tracked m = elim (Option-cases (lookup key ep.keys)) [
    | inl e ↦ (
      tracked ep,
      rw (e, without_old) h.size,
      (let sum : total meta_size (insert key m ep.keys) + 0 ≡ tracked ep + m.size_bytes =
            rw e at (total-insert meta_size key m ep.keys) in
          omega arith),
    )
    | inr (old, e) ↦
        let sum : total meta_size (insert key m ep.keys) + old.size_bytes
            ≡ tracked ep + m.size_bytes =
          rw e at (total-insert meta_size key m ep.keys) in
        let gone : total meta_size (delete key ep.keys) + old.size_bytes ≡ tracked ep =
          rw e at (total-delete meta_size key ep.keys h.distinct) in
        (
          tracked ep - old.size_bytes,
          rw (e, without_old, h.size) (sub_size_pos (tracked ep) old.size_bytes (omega arith)),
          omega arith,
        )
  ]

  -- Recording a key sets its share of the sum to the new size.
  pub remember-IsAccounted : (m : EntryMeta) → IsAccounted (remember key m ep)
  unfolding remember
  remember-IsAccounted m =
      let (n, old, sum) = without_old-tracked m in
      record {
        distinct = insert-Distinct key m ep.keys h.distinct;
        size = rw old (add_size_pos n m.size_bytes ∙ ap pos sum);
      }

  pub tracked-remember : (m : EntryMeta) → tracked (remember key m ep) ≤ tracked ep + m.size_bytes
  unfolding remember
  tracked-remember m = omega (arith, total-insert meta_size key m ep.keys)
