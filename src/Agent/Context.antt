-- ===== src/Agent/Context.antt =====
-- `FormatAlertEvents` of internal/agent/memory_l2.go and `FormatHistoricalFindings` of
-- internal/agent/memory_l3.go: the texts that are injected into a conversation. `rfc3339` prints a
-- time.
use kubeminds.Prelude.{ℕ, suc, ◌+◌, List, [], ◌∷◌, ◌++◌}
use kubeminds.Prelude.Bytes.{Str, lit, itoa, concat}
use kubeminds.Prelude.Int.{ℤ, int_text}
use kubeminds.Agent.Types.{AlertEvent, KnowledgeFinding}

unfoldable pub event_line : (ℤ → Str) → AlertEvent → Str
unfolding lit itoa concat
event_line rfc3339 e = concat (
    lit "  - ["
    ∷ e.alert_name
    ∷ lit "] pod="
    ∷ e.pod
    ∷ lit " count="
    ∷ int_text e.count
    ∷ lit " last_seen="
    ∷ rfc3339 e.last_seen
    ∷ lit "\n"
    ∷ [])

unfoldable pub event_lines : (ℤ → Str) → List AlertEvent → Str
unfolding event_line
event_lines rfc3339 [] = []
event_lines rfc3339 (e ∷ es) = event_line rfc3339 e ++ event_lines rfc3339 es

unfoldable pub format_alert_events : (ℤ → Str) → List AlertEvent → Str
unfolding event_lines lit
format_alert_events rfc3339 [] = []
format_alert_events rfc3339 (e ∷ es) =
    lit "Recent alert events in this namespace (from L2 event stream):\n"
    ++ event_lines rfc3339 (e ∷ es)

unfoldable pub finding_line : (ℤ → Str) → ℕ → KnowledgeFinding → Str
unfolding lit itoa concat
finding_line rfc3339 i f = concat (
    lit "  ["
    ∷ itoa (i + 1)
    ∷ lit "] alert="
    ∷ f.alert_name
    ∷ lit " namespace="
    ∷ f.namespace
    ∷ lit " root_cause="
    ∷ f.root_cause
    ∷ lit " suggestion="
    ∷ f.suggestion
    ∷ lit " (recorded "
    ∷ rfc3339 f.created_at
    ∷ lit ")\n"
    ∷ [])

unfoldable pub finding_lines : (ℤ → Str) → ℕ → List KnowledgeFinding → Str
unfolding finding_line
finding_lines rfc3339 i [] = []
finding_lines rfc3339 i (f ∷ fs) = finding_line rfc3339 i f ++ finding_lines rfc3339 (suc i) fs

unfoldable pub format_historical_findings : (ℤ → Str) → List KnowledgeFinding → Str
unfolding finding_lines lit
format_historical_findings rfc3339 [] = []
format_historical_findings rfc3339 (f ∷ fs) =
    lit "Historically similar diagnoses (from L3 knowledge base):\n"
    ++ finding_lines rfc3339 0 (f ∷ fs)
