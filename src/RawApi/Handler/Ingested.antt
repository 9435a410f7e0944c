-- ===== src/RawApi/Handler/Ingested.antt =====
-- Which rows `ingest_handler` of src/raw_api.rs hands to the database.
use rpc_latency_monitor.Prelude.{
  ◌≤◌, ◌<◌, ◌≡◌, refl, ap, String, true, false, not, ◌||◌, Option, none, some, List, [], ◌∷◌, All,
  arith, inl, inr, ◌⊎◌, ◌==◌, ==_iff, string_eq, any, is_empty, ltb, length, is_blank_text,
  or_false, not-false, Bool-cases,
}
use rpc_latency_monitor.Crates.{Crates}
use rpc_latency_monitor.RawApi.App.{AppState, Reply}
use rpc_latency_monitor.RawApi.Handler.{
  authorize, row_labels, bad_row, inserted, ingest_rows, ingest_by, ingest_handler, max_ingest_rows,
}
use rpc_latency_monitor.RawApi.Query.{is_valid_label_value}
use rpc_latency_monitor.RawApi.Query.Valid.{IsLabel, is_valid_label_value-IsLabel}
use rpc_latency_monitor.RawApi.Samples.{IngestRow, insert_samples}

module _ ⦃c : Crates⦄ where
  open c use {is_finite, World}

  pub record IsRow (row : IngestRow) : Type 0 where
    pub provider : IsLabel row.provider
    pub method : IsLabel row.method
    pub infra : IsLabel row.infra
    pub region : IsLabel row.region
    pub status : IsLabel row.status
    pub error_kind : IsLabel row.error_kind
    pub target : (row.target ≡ "") ⊎ IsLabel row.target
    pub finite : (is_finite row.ts ≡ true) × (is_finite row.latency_ms ≡ true)

  -- What has been checked of a request whose rows are stored.
  pub record IsIngest (authorization : Option String) (rows : List IngestRow) (state : AppState)
      (w : World) : Type 0 where
    pub fleet : authorize state authorization w ≡ some "fleet"
    pub some_rows : 0 < length rows
    pub few_rows : length rows ≤ 10000
    pub checked : All IsRow rows

  labels_of :
      (vs : List String) → any (λ v. not (is_valid_label_value v)) vs ≡ false → All IsLabel vs
  labels_of [] h = tt
  labels_of (v ∷ vs) h =
      let (good, rest) = or_false _ _ h in
      (is_valid_label_value-IsLabel v (not-false _ good), labels_of vs rest)

  target_of :
      (s : String) → (is_blank_text s || is_valid_label_value s) ≡ true → (s ≡ "") ⊎ IsLabel s
  target_of String.[] h = inl refl
  target_of (String.◌∷◌ ch s) h = inr (is_valid_label_value-IsLabel (String.◌∷◌ ch s) h)

  bad_row-IsRow : (row : IngestRow) → bad_row row ≡ false → IsRow row
  unfolding bad_row
  bad_row-IsRow row h =
      let (h2, latency) = or_false _ _ h in
      let (h3, ts) = or_false _ _ h2 in
      let (labels, target) = or_false _ _ h3 in
      let (provider, (method, (infra, (region, (status, (error_kind, _)))))) =
        labels_of (row_labels row) labels in
      record {
        provider = provider;
        method = method;
        infra = infra;
        region = region;
        status = status;
        error_kind = error_kind;
        target = target_of row.target (not-false _ target);
        finite = (not-false _ ts, not-false _ latency);
      }

  rows_of : (rows : List IngestRow) → any bad_row rows ≡ false → All IsRow rows
  rows_of [] h = tt
  rows_of (row ∷ rows) h =
      let (good, rest) = or_false _ _ h in (bad_row-IsRow row good, rows_of rows rest)

  some_rows_of : (rows : List IngestRow) → is_empty rows ≡ false → 0 < length rows
  some_rows_of [] h = cc
  some_rows_of (row ∷ rows) h = omega arith

  -- A refusal: its status, and nothing done outside.
  abbrev pub Refused : World → Reply × World → Type 0
  Refused w r = (r.1 ≡ w) × ((r.0.status ≡ 400) ⊎ (r.0.status ≡ 401) ⊎ (r.0.status ≡ 403))

  abbrev HasRows : List IngestRow → Type 0
  HasRows rows = (0 < length rows) × (length rows ≤ 10000) × All IsRow rows

  checked_rows :
      (state : AppState) (rows : List IngestRow) (w : World)
      → (HasRows rows × (ingest_rows state rows w ≡ inserted (insert_samples state rows w)))
        ⊎ Refused w (ingest_rows state rows w)
  unfolding ingest_rows
  checked_rows state rows w =
      elim (Bool-cases (is_empty rows || ltb max_ingest_rows (length rows))) [
        | inl odd ↦ inr (rw odd (refl, inl refl))
        | inr count ↦ elim (Bool-cases (any bad_row rows)) [
          | inl bad ↦ inr (rw (count, bad) (refl, inl refl))
          | inr good ↦
              let (present, few) = or_false _ _ count in
              inl (
                (some_rows_of rows present, ground arith, rows_of rows good),
                rw (count, good) refl,
              )
        ]
      ]

  checked_subject :
      (o : Option String) (state : AppState) (rows : List IngestRow) (w : World)
      → ((o ≡ some "fleet")
          × HasRows rows
          × (ingest_by o state rows w ≡ inserted (insert_samples state rows w)))
        ⊎ Refused w (ingest_by o state rows w)
  checked_subject none state rows w = inr (refl, inr (inl refl))
  checked_subject (some sub) state rows w = elim (Bool-cases (sub == "fleet")) [
    | inr other ↦ inr (rw other (refl, inr (inr refl)))
    | inl fleet ↦ elim (checked_rows state rows w) [
      | inl (fine, stored) ↦ inl (ap some ((==_iff sub "fleet").0 fleet), fine, rw fleet stored)
      | inr refused ↦ inr (rw fleet refused)
    ]
  ]

  -- Either the token is the fleet's and there are 1 to 10000 rows, and of each row the provider, the
  -- method, the infra, the region, the status and the kind of error are labels that are well formed,
  -- the target is empty or such a label, and the time and the latency are finite, and the request is
  -- what becomes of storing the rows; or the reply's status is 400, 401 or 403, and nothing is done
  -- outside.
  pub ingest_handler-checked :
      (authorization : Option String) (rows : List IngestRow) (state : AppState) (w : World)
      → (IsIngest authorization rows state w
          × (ingest_handler authorization rows state w ≡ inserted (insert_samples state rows w)))
        ⊎ Refused w (ingest_handler authorization rows state w)
  unfolding ingest_handler
  ingest_handler-checked authorization rows state w =
      elim (checked_subject (authorize state authorization w) state rows w) [
        | inl (fleet, (present, few, checked), stored) ↦ inl (
          record { fleet = fleet; some_rows = present; few_rows = few; checked = checked },
          stored,
        )
        | inr refused ↦ inr refused
      ]
