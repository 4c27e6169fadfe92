-- ===== src/Workflow/Aliases/Release.antt =====
-- A reference that the inner loop of topoSortAliases in internal/workflow/compile.go takes away.
use sqlproxy.Prelude.{
  ℕ, zero, suc, ◌+◌, ◌≤◌, ◌≡◌, refl, sym, ap, ◌∙◌, inl, inr, arith, List, [], ◌∷◌, ◌++◌, Text, true,
  false, none, some, Bool-cases, All, ◌==◌, if◌then◌else◌, text_eq, text_eq_iff, text_eq_refl, Dict,
  lookup, insert, lookup-insert, ℤ, pos,
}
use mathlib.Core.List.{append_assoc}
use mathlib.Core.Path.{subst}
use sqlproxy.SqlUtil.Words.{contains_word}
use sqlproxy.Workflow.Aliases.{Sorting, decrement, degree_of, has_none, release, release_all}
use sqlproxy.Workflow.Aliases.Sums.{
  NoRepeat, Within, contains_word-++, NoRepeat-snoc, All-snoc, All-contains_word, All-map-except,
}
use sqlproxy.Workflow.Aliases.Rounds.{count, referred, IsFree, IsConsistent, referred_le}

module _ (names : List Text) (deps : Dict (List Text)) where
  -- the next reference has a degree to lose
  next_degree :
      (y : Text) (left : List Text) (s : Sorting)
      → IsConsistent names deps (y ∷ left) s
      → contains_word names y ≡ true
      → (r : ℕ) × (lookup y s.degrees ≡ some (pos (suc r)))
        × (suc r + referred names deps y s.sorted
            ≡ referred names deps y names + suc (count y left))
  next_degree y left s c h =
      let (r, e, q) = c.degree y h in
      let q' : r + referred names deps y s.sorted
          ≡ referred names deps y names + suc (count y left) =
        rw (text_eq_refl y) at q in
      positive r e q' (referred_le names deps (y ∷ left) s c y)
    where
      positive :
          (r : ℕ)
          → lookup y s.degrees ≡ some (pos r)
          → r + referred names deps y s.sorted ≡ referred names deps y names + suc (count y left)
          → referred names deps y s.sorted ≤ referred names deps y names
          → (r : ℕ) × (lookup y s.degrees ≡ some (pos (suc r)))
            × (suc r + referred names deps y s.sorted
                ≡ referred names deps y names + suc (count y left))
      positive zero e q b = absurd (omega arith)
      positive (suc r) e q b = (r, e, q)

  module _ (y : Text) (left : List Text) (s : Sorting) (c : IsConsistent names deps (y ∷ left) s)
      (r : ℕ) (e : lookup y s.degrees ≡ some (pos (suc r)))
      (q : suc r + referred names deps y s.sorted
        ≡ referred names deps y names + suc (count y left))
      (h : contains_word names y ≡ true) where
    -- what release makes of the degrees
    abbrev fewer : Dict ℤ
    fewer = insert y (pos r) s.degrees

    lookup-fewer :
        (x : Text) → lookup x fewer ≡ (if text_eq y x then some (pos r) else lookup x s.degrees)
    lookup-fewer x = lookup-insert y x (pos r) s.degrees

    not_free : contains_word (s.sorted ++ s.queue) y ≡ false
    not_free = elim (Bool-cases (contains_word (s.sorted ++ s.queue) y)) [
      | inl e' ↦
          absurd (
            let f = All-contains_word (IsFree names deps s) (s.sorted ++ s.queue) y c.free e' in cc)
      | inr n ↦ n
    ]

    fewer_degree :
        (x : Text)
        → contains_word names x ≡ true
        → (r : ℕ) × (lookup x fewer ≡ some (pos r))
          × (r + referred names deps x s.sorted ≡ referred names deps x names + count x left)
    fewer_degree x k = elim (Bool-cases (text_eq y x)) [
      | inl e' ↦ (
        r,
        lookup-fewer x ∙ rw e' refl,
        subst (λ z. r + referred names deps z s.sorted ≡ referred names deps z names + count z left)
            ((text_eq_iff y x).0 e') (omega arith),
      )
      | inr n ↦ let (r, e', q') = c.degree x k in (r, lookup-fewer x ∙ rw n e', rw n at q')
    ]

    fewer_free : All (λ x. lookup x fewer ≡ some (pos 0)) (s.sorted ++ s.queue)
    fewer_free =
        All-map-except (IsFree names deps s) (λ x. lookup x fewer ≡ some (pos 0)) y
          (s.sorted ++ s.queue) (λ x n f. lookup-fewer x ∙ rw n f) not_free c.free

    -- queue with y, once nothing unsorted refers to it
    abbrev longer : List Text
    longer = s.queue ++ (y ∷ [])

    append_longer : (s.sorted ++ s.queue) ++ (y ∷ []) ≡ s.sorted ++ longer
    append_longer = append_assoc s.sorted s.queue (y ∷ [])

    found_other :
        (x : Text)
        → contains_word names x ≡ true
        → text_eq y x ≡ false
        → lookup x fewer ≡ some (pos 0)
        → contains_word (s.sorted ++ s.queue) x ≡ true
    found_other x k n f = c.found x k (sym (rw n at (lookup-fewer x)) ∙ f)

    found_longer :
        (x : Text)
        → contains_word names x ≡ true
        → lookup x fewer ≡ some (pos 0)
        → contains_word (s.sorted ++ longer) x ≡ true
    unfolding contains_word
    found_longer x k f =
        ap (λ l. contains_word l x) (sym append_longer)
        ∙ contains_word-++ (s.sorted ++ s.queue) (y ∷ []) x
        ∙ elim (Bool-cases (text_eq y x)) [
          | inl e' ↦ ground (arith, e')
          | inr n ↦ ground (arith, found_other x k n f)
        ]

    release_last :
        r ≡ 0
        → IsConsistent names deps left
            (record { degrees = fewer; queue = longer; sorted = s.sorted })
    release_last z = record {
      degree = fewer_degree;
      free = subst (All (λ x. lookup x fewer ≡ some (pos 0))) append_longer (
          All-snoc (λ x. lookup x fewer ≡ some (pos 0)) (s.sorted ++ s.queue) y fewer_free
            (lookup-fewer y ∙ rw (text_eq_refl y, z) refl));
      once = subst NoRepeat append_longer (NoRepeat-snoc (s.sorted ++ s.queue) y c.once not_free);
      known =
          subst (Within names) append_longer
            (All-snoc (λ x. contains_word names x ≡ true) (s.sorted ++ s.queue) y c.known h);
      ordered = c.ordered;
      found = found_longer;
    }

    release_more :
        (k : ℕ)
        → r ≡ suc k
        → IsConsistent names deps left
            (record { degrees = fewer; queue = s.queue; sorted = s.sorted })
    release_more k z = record {
      degree = fewer_degree;
      free = fewer_free;
      once = c.once;
      known = c.known;
      ordered = c.ordered;
      found = λ x k f. elim (Bool-cases (text_eq y x)) [
        | inl e' ↦ absurd (let f' = rw e' at (sym (lookup-fewer x) ∙ f) in cc)
        | inr n ↦ found_other x k n f
      ];
    }

  -- release, for a reference that the degrees count
  release_counted :
      (y : Text) (s : Sorting) (r : ℕ)
      → lookup y s.degrees ≡ some (pos (suc r))
      → release y s ≡ record {
        degrees = insert y (pos r) s.degrees;
        queue = if r == 0 then s.queue ++ (y ∷ []) else s.queue;
        sorted = s.sorted;
      }
  unfolding release degree_of decrement has_none
  release_counted y s r e =
      ap
        (λ o.
          let d = decrement (elim o [ none ↦ pos 0 | some d ↦ d ]) in
          record {
            degrees = insert y d s.degrees;
            queue = if has_none d then s.queue ++ (y ∷ []) else s.queue;
            sorted = s.sorted;
          })
        e

  release_keeps :
      (y : Text) (left : List Text) (s : Sorting)
      → IsConsistent names deps (y ∷ left) s
      → contains_word names y ≡ true
      → IsConsistent names deps left (release y s)
  release_keeps y left s c h =
      let (r, e, q) = next_degree y left s c h in
      subst (IsConsistent names deps left) (sym (release_counted y s r e)) (by_count r e q)
    where
      by_count :
          (r : ℕ)
          → lookup y s.degrees ≡ some (pos (suc r))
          → suc r + referred names deps y s.sorted
            ≡ referred names deps y names + suc (count y left)
          → IsConsistent names deps left (record {
            degrees = insert y (pos r) s.degrees;
            queue = if r == 0 then s.queue ++ (y ∷ []) else s.queue;
            sorted = s.sorted;
          })
      by_count zero e q = release_last y left s c 0 e q h refl
      by_count (suc k) e q =
          let f : (suc k == 0) ≡ false = ground arith in
          rw f (release_more y left s c (suc k) e q h k refl)

  pub release_all_keeps :
      (left : List Text) (s : Sorting)
      → Within names left
      → IsConsistent names deps left s
      → IsConsistent names deps [] (release_all left s)
  unfolding release_all
  release_all_keeps [] s w c = c
  release_all_keeps (y ∷ left) s (h, w) c =
      release_all_keeps left (release y s) w (release_keeps y left s c h)
