-- ===== src/Llm/Attempts.antt =====
-- The loop of attempts of internal/llm: its bounds, and where a success comes from.
use kubeminds.Prelude.{
  ℕ, zero, suc, ◌+◌, ◌≤◌, ◌≡◌, ◌∙◌, Option, none, some, arith, inl, inr, Bool-cases,
}
use kubeminds.Prelude.Bytes.{Str}
use kubeminds.Prelude.Errors.{Fallible, ok, Fallible-cases}
use kubeminds.Llm.Backoff.{is_retryable_error, delay_of, after_wait, attempts}

-- The waits of the loop, if all attempts fail.
unfoldable pub budget : ℕ → ℕ → ℕ
budget zero attempt = 0
budget (suc left) attempt = delay_of attempt + budget left (suc attempt)

module _ {W A : Type 0} (request : W → Fallible A × W) (wait : ℕ → W → Option Str × W)
    (failed : Str → Str) where
  module _ (requests waited : W → ℕ) where
    -- What the two measures count: the requests, and the time of the waits, which the context can
    -- only cut short.
    pub record Counts : Type 0 where
      pub requests_request : (w : W) → requests (request w).1 ≡ requests w + 1
      pub requests_wait : (d : ℕ) (w : W) → requests (wait d w).1 ≡ requests w
      pub waited_request : (w : W) → waited (request w).1 ≡ waited w
      pub waited_wait : (d : ℕ) (w : W) → waited (wait d w).1 ≤ waited w + d

    -- At most `n` requests and `t` of waiting between two states.
    abbrev pub Within : ℕ → ℕ → W → W → Type 0
    Within n t w w' = (requests w' ≤ requests w + n) × (waited w' ≤ waited w + t)

    module _ (m : Counts) where
      after_wait-Within :
          (again : W → Fallible A × W) (n t : ℕ) (r : Option Str × W)
          → ((w : W) → Within n t w (again w).1)
          → Within n t r.1 (after_wait request wait failed again r).1
      unfolding after_wait
      after_wait-Within again n t (none, w) h = h w
      after_wait-Within again n t (some e, w) h = (omega arith, omega arith)

      pub attempts-Within :
          (left attempt : ℕ) (w : W)
          → Within
              (left + 1)
              (budget left attempt)
              w
              (attempts request wait failed left attempt w).1
      unfolding attempts budget
      attempts-Within zero attempt w = elim (Fallible-cases (request w).0) [
        | inl (cs, e) ↦ rw (e, attempts) one
        | inr (x, e) ↦ rw (e, attempts) one
      ]
        where
          one : Within 1 0 w (request w).1
          one = (omega (arith, m.requests_request w), omega (arith, m.waited_request w))
      attempts-Within (suc left) attempt w =
          let w₁ = (request w).1 in
          let (n, t) =
            after_wait-Within (λ w'. attempts request wait failed left (suc attempt) w') (left + 1)
              (budget left (suc attempt)) (wait (delay_of attempt) w₁)
              (λ w'. attempts-Within left (suc attempt) w') in
          let n₁ = m.requests_request w in
          let t₁ = m.waited_request w in
          elim (Fallible-cases (request w).0) [
            | inl (cs, e) ↦ rw (e, attempts) (omega (arith, n₁), omega (arith, t₁))
            | inr (x, e) ↦
                rw (e, attempts)
                  (elim (Bool-cases (is_retryable_error x)) [
                    | inl y ↦
                        rw (y, attempts)
                          (
                            omega (arith, n, n₁, m.requests_wait (delay_of attempt) w₁),
                            omega (arith, t, t₁, m.waited_wait (delay_of attempt) w₁),
                          )
                    | inr y ↦ rw (y, attempts) (omega (arith, n₁), omega (arith, t₁))
                  ])
          ]

  -- A success of the loop is the answer to a request.
  abbrev pub FromServer : Fallible A → Type 0
  FromServer r = (a : A) → r ≡ ok a → (w : W) × ((request w).0 ≡ ok a)

  after_wait-FromServer :
      (again : W → Fallible A × W) (r : Option Str × W)
      → ((w : W) → FromServer (again w).0)
      → FromServer (after_wait request wait failed again r).0
  unfolding after_wait
  after_wait-FromServer again (none, w) h = h w
  after_wait-FromServer again (some e, w) h = λ a q. cc

  pub attempts-FromServer :
      (left attempt : ℕ) (w : W) → FromServer (attempts request wait failed left attempt w).0
  unfolding attempts
  attempts-FromServer zero attempt w = elim (Fallible-cases (request w).0) [
    | inl (xs, e) ↦ rw (e, attempts) (λ a q. (w, e ∙ q))
    | inr (x, e) ↦ rw (e, attempts) (λ a q. cc)
  ]
  attempts-FromServer (suc left) attempt w = elim (Fallible-cases (request w).0) [
    | inl (xs, e) ↦ rw (e, attempts) (λ a q. (w, e ∙ q))
    | inr (x, e) ↦
        rw (e, attempts)
          (elim (Bool-cases (is_retryable_error x)) [
            | inl y ↦
                rw (y, attempts)
                  (after_wait-FromServer _ (wait (delay_of attempt) (request w).1)
                    (λ w'. attempts-FromServer left (suc attempt) w'))
            | inr y ↦ rw (y, attempts) (λ a q. cc)
          ])
  ]
