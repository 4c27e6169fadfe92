-- ===== src/Server/Adapters.antt =====
-- What the adapters of internal/server/server.go promise the workflow handler.
use sqlproxy.Prelude.{
  ℕ, ◌+◌, ◌*◌, ◌≤◌, ◌<◌, ◌^◌, ◌≡◌, refl, inl, inr, arith, List, [], ◌∷◌, Text, Bool, true, false,
  some, Bool-cases, text_eq, lookup, Result, ok, err, Result-cases, ℤ, pos,
}
use mathlib.Core.Path.{subst}
use sqlproxy.Params.Values.{ValueLibrary}
use sqlproxy.RateLimit.InlineKey.{RateLimitConfig}
use sqlproxy.Server.{
  Verdict, Backends, retry_after_sec, check_trigger_limits, stored_response, response_of,
  get_response, response_row, set_response,
}

module _ {lib : ValueLibrary} (b : Backends lib) where
  stored_response-response_row :
      (body : Text) (status : ℕ)
      → lib.truncate (b.float_of status) ≡ pos status
      → stored_response b (response_row b body status) ≡ some (body, pos status)
  unfolding stored_response lookup text_eq
  stored_response-response_row body status h = rw h refl

  -- With a cache, and numbers below 2^53 that a float64 holds exactly, the adapter gives the cache
  -- one row for a body and a status below 2^53, and where a lookup finds this row it reads the
  -- same body and status from it.
  pub get_response-set_response :
      b.has_cache ≡ true
      → ((n : ℕ) → n < 2 ^ 53 → lib.truncate (b.float_of n) ≡ pos n)
      → (workflow_name key body : Text) (status : ℕ) (ttl : ℤ) (w later : b.World) → status < 2 ^ 53
      → (b.cache_get workflow_name key later).1 ≡ some (response_row b body status ∷ [])
      → (set_response b workflow_name key body status ttl w
          ≡ b.cache_set workflow_name key (response_row b body status ∷ []) ttl w)
        × (get_response b workflow_name key later
            ≡ ((b.cache_get workflow_name key later).0, some (body, pos status)))
  unfolding get_response set_response response_of
  get_response-set_response on exact workflow_name key body status ttl w later small found =
      let read = stored_response-response_row body status (exact status small) in
      (simp (set_response, on) refl, simp (get_response, on, found, response_of, read) refl)

  -- The limiter denied the request, and its wait is told in whole seconds, one at least.
  abbrev pub IsDenial : Result Text Verdict → ℕ → Type 0
  IsDenial r sec =
      (d : Verdict) × (r ≡ ok d)
      × (d.allowed ≡ false)
      × (1 ≤ sec)
      × (d.retry_after < (sec + 1) * 1000000000)

  abbrev DeniedIf : Result Text Verdict → Result Text (Bool × ℕ) → Type 0
  DeniedIf r (err e) = Unit
  DeniedIf r (ok (true, sec)) = Unit
  DeniedIf r (ok (false, sec)) = IsDenial r sec

  retry_after_sec_denied :
      (r : Result Text Verdict) (d : Verdict)
      → r ≡ ok d
      → DeniedIf r (ok (d.allowed, retry_after_sec b d))
  unfolding retry_after_sec
  retry_after_sec_denied r d e = elim (Bool-cases d.allowed) [
    | inl a ↦ rw a tt
    | inr a ↦ rw a (d, e, a, ground arith, ground arith)
  ]

  check_trigger_limits-DeniedIf :
      (limits : List RateLimitConfig) (ctx : b.Context) (w : b.World)
      → DeniedIf (b.allow limits ctx w).1 (check_trigger_limits b limits ctx w).1
  unfolding check_trigger_limits
  check_trigger_limits-DeniedIf [] ctx w = tt
  check_trigger_limits-DeniedIf (limit ∷ limits) ctx w = elim (Bool-cases b.has_limiter) [
    | inr h ↦ simp (check_trigger_limits, h) tt
    | inl h ↦ elim (Result-cases (b.allow (limit ∷ limits) ctx w).1) [
      | inl (e, r) ↦ simp (check_trigger_limits, h, r) tt
      | inr (d, r) ↦ simp (check_trigger_limits, h, r) (retry_after_sec_denied (ok d) d refl)
    ]
  ]

  -- When the adapter tells of a request denied for some seconds, the limiter denied it, the
  -- seconds are at least one, and the wait of the limiter is less than one second more.
  pub check_trigger_limits-IsDenial :
      (limits : List RateLimitConfig) (ctx : b.Context) (w : b.World) (sec : ℕ)
      → (check_trigger_limits b limits ctx w).1 ≡ ok (false, sec)
      → IsDenial (b.allow limits ctx w).1 sec
  check_trigger_limits-IsDenial limits ctx w sec h =
      subst (DeniedIf (b.allow limits ctx w).1) h (check_trigger_limits-DeniedIf limits ctx w)
