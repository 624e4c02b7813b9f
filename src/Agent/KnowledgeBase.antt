-- ===== src/Agent/KnowledgeBase.antt =====
-- internal/agent/memory_l3.go: the knowledge base in PostgreSQL. The pool and the codec of vectors
-- are outside; `V` is the type of a number of an embedding.
use kubeminds.Prelude.{List, [], ◌∷◌, ◌++◌, Option, none, some}
use kubeminds.Prelude.Int.{ℤ}
use kubeminds.Prelude.Bytes.{Str, lit}
use kubeminds.Prelude.Errors.{Fallible, ok, err, ◌>>=◌, wrap}
use kubeminds.Agent.Types.{KnowledgeFinding}

-- The statements, with their parameters: the extension, the table and the index for a dimension;
-- the insertion of a diagnosis, whose vector may be null; and the nearest diagnoses to a vector.
pub data Statement (V : Type 0) : Type 0 where
  create_schema : ℤ → Statement V
  insert_finding : Str → Str → Str → Str → Option (List V) → Statement V
  select_similar : List V → ℤ → Statement V

-- What a query yields: its rows as they are scanned, and the error at their end.
pub record Rows : Type 0 where
  pub scanned : List (Fallible KnowledgeFinding)
  pub error : Option Str

-- `pgxpool.ParseConfig`, `pgxpool.NewWithConfig` with the registration of the vector types at each
-- new connection, `Exec` and `Query`.
pub record Pool (V C P W : Type 0) : Type 0 where
  pub parse_config : Str → Fallible C
  pub register_types : C → Option Str
  pub new_with_config : C → (C → Option Str) → Fallible P
  pub exec : P → Statement V → W → Option Str × W
  pub query : P → Statement V → W → Fallible Rows × W

-- `PGKnowledgeBase`
pub record PgKnowledgeBase (P : Type 0) : Type 0 where
  pub pool : P
  pub dim : ℤ

abbrev pub wrap_error : Str → Option Str → Option Str
wrap_error text none = none
wrap_error text (some e) = some (text ++ e)

-- The loop over the rows: the first row that does not scan ends it.
unfoldable pub scan_rows : List (Fallible KnowledgeFinding) → Fallible (List KnowledgeFinding)
scan_rows [] = ok []
scan_rows (row ∷ rows) =
    let rest = scan_rows rows in
    (do f ← wrap (lit "l3: failed to scan row: ") row; fs ← rest; ok (f ∷ fs))

abbrev pub at_end : Option Str → List KnowledgeFinding → Fallible (List KnowledgeFinding)
at_end none fs = ok fs
at_end (some e) fs = err (lit "l3: row iteration error: " ++ e)

module _ {V C P W : Type 0} (p : Pool V C P W) where
  -- `NewPGKnowledgeBaseFromDSN`
  unfoldable pub new_pg_knowledge_base_from_dsn : Str → ℤ → Fallible (PgKnowledgeBase P)
  new_pg_knowledge_base_from_dsn dsn dim = do
    cfg ← wrap (lit "l3: failed to parse dsn: ") (p.parse_config dsn)
    pool ← wrap (lit "l3: failed to create pgx pool: ") (
        p.new_with_config cfg
          (λ c. wrap_error (lit "l3: pgvector type registration: ") (p.register_types c)))
    ok (record { pool = pool; dim = dim })

  -- `InitSchema`
  unfoldable pub init_schema : PgKnowledgeBase P → W → Option Str × W
  init_schema kb w =
      let (e, w') = p.exec kb.pool (create_schema kb.dim) w in
      (wrap_error (lit "l3: failed to init schema: ") e, w')

  abbrev pub vector_or_null : List V → Option (List V)
  vector_or_null [] = none
  vector_or_null (x ∷ xs) = some (x ∷ xs)

  -- `SaveDiagnosis`
  unfoldable pub save_diagnosis : PgKnowledgeBase P → KnowledgeFinding → List V → W → Option Str × W
  save_diagnosis kb f embedding w =
      let (e, w') =
        p.exec kb.pool
          (insert_finding f.alert_name f.namespace f.root_cause f.suggestion
            (vector_or_null embedding))
          w in
      (wrap_error (lit "l3: failed to save diagnosis: ") e, w')

  abbrev pub findings_of : Fallible Rows → Fallible (List KnowledgeFinding)
  findings_of (err e) = err (lit "l3: failed to search similar diagnoses: " ++ e)
  findings_of (ok rows) = do fs ← scan_rows rows.scanned; at_end rows.error fs

  -- `SearchSimilar`
  unfoldable pub search_similar :
      PgKnowledgeBase P → List V → ℤ → W → Fallible (List KnowledgeFinding) × W
  search_similar kb [] limit w = (ok [], w)
  search_similar kb (x ∷ xs) limit w =
      let (reply, w') = p.query kb.pool (select_similar (x ∷ xs) limit) w in (findings_of reply, w')
