-- ===== src/Alert/Handler.antt =====
-- internal/alert/handler.go: the webhook of AlertManager. The decoded body is an argument, each
-- alert with the time at which it is taken in.
use kubeminds.Prelude.{ℕ, Bool, List, [], ◌∷◌, Option, none, some}
use kubeminds.Prelude.Tests.{if◌then◌else◌}
use kubeminds.Prelude.Bytes.{Str, lit, str_eq}
use kubeminds.Prelude.Errors.{Fallible, ok, err}
use kubeminds.Alert.Types.{AlertItem}
use kubeminds.Alert.Aggregator.{Aggregator, ingest}

pub data HttpStatus : Type 0 where
  accepted bad_request internal_server_error : HttpStatus

unfoldable pub is_firing : AlertItem → Bool
unfolding str_eq lit
is_firing item = str_eq item.status (lit "firing")

abbrev or_fail : Option Str → Aggregator → HttpStatus × Aggregator → HttpStatus × Aggregator
or_fail none a rest = rest
or_fail (some e) a rest = (internal_server_error, a)

unfoldable pub ingest_all : List (ℕ × AlertItem) → Aggregator → HttpStatus × Aggregator
unfolding is_firing ingest
ingest_all [] a = (accepted, a)
ingest_all ((now, item) ∷ items) a =
    let (error, a') = ingest now item a in
    let skipped = ingest_all items a in
    let taken = or_fail error a' (ingest_all items a') in if is_firing item then taken else skipped

unfoldable pub serve_webhook :
    Fallible (List (ℕ × AlertItem)) → Aggregator → HttpStatus × Aggregator
unfolding ingest_all
serve_webhook (err e) a = (bad_request, a)
serve_webhook (ok items) a = ingest_all items a
