-- ===== src/Llm/Backoff.antt =====
-- internal/llm: the loop of attempts that openai.go and anthropic.go share in form, over one request.
-- Times are milliseconds.
use kubeminds.Prelude.{
  ℕ, zero, suc, ◌*◌, ◌^◌, min, Bool, true, false, ◌||◌, [], ◌∷◌, ◌++◌, Option, none, some,
}
use kubeminds.Prelude.Lists.{any}
use kubeminds.Prelude.Bytes.{Str, lit, str_eq, contains}
use kubeminds.Prelude.Errors.{Fallible, ok, err}

-- `isRetryableError`, on the text of an error
unfoldable pub is_retryable_error : Str → Bool
unfolding str_eq contains lit
is_retryable_error text =
    str_eq text (lit "context deadline exceeded")
    || (str_eq text (lit "context cancelled")
        || any (contains text) (
            lit "connection refused"
            ∷ lit "connection reset"
            ∷ lit "timeout"
            ∷ lit "temporary failure"
            ∷ lit "503"
            ∷ lit "502"
            ∷ lit "500"
            ∷ lit "429"
            ∷ []))

-- 1 s, doubled at each attempt, and at most 10 s
unfoldable pub delay_of : ℕ → ℕ
delay_of attempt = min (1000 * 2 ^ attempt) 10000

-- The request, the wait between two requests (which the context may end with an error), and what
-- the loop returns for the error of its last request.
module _ {W A : Type 0} (request : W → Fallible A × W) (wait : ℕ → W → Option Str × W)
    (failed : Str → Str) where
  -- After a failed attempt, with the further attempts as a function.
  unfoldable pub after_wait : (W → Fallible A × W) → Option Str × W → Fallible A × W
  unfolding lit
  after_wait again (none, w) = again w
  after_wait again (some e, w) = (err (lit "context cancelled during retry: " ++ e), w)

  -- The loop, on the attempts left after this one.
  unfoldable pub attempts : ℕ → ℕ → W → Fallible A × W
  unfolding is_retryable_error delay_of after_wait
  attempts zero attempt w = elim ((request w).0) [
    | ok reply ↦ (ok reply, (request w).1)
    | err e ↦ (err (failed e), (request w).1)
  ]
  attempts (suc left) attempt w = elim ((request w).0) [
    | ok reply ↦ (ok reply, (request w).1)
    | err e ↦ elim (is_retryable_error e) [
      | true ↦
          after_wait (λ w'. attempts left (suc attempt) w') (wait (delay_of attempt) (request w).1)
      | false ↦ (err (failed e), (request w).1)
    ]
  ]
