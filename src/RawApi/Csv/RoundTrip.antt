-- ===== src/RawApi/Csv/RoundTrip.antt =====
-- What a reader of CSV reads from the text of `to_csv`.
use rpc_latency_monitor.Prelude.{
  any, is_some, false, String, ◌≡◌, ◌≢◌, refl, ap, ◌∙◌, inl, inr, Option, some, List, [], ◌∷◌, ◌++◌,
  map, All, has_char, nat_eq, ◌<>◌, join, Bool-cases,
}
use rpc_latency_monitor.Prelude.Maybe.{◌>>=◌}
use mathlib.Core.List.{append_assoc}
use rpc_latency_monitor.Crates.{Crates}
use rpc_latency_monitor.RawApi.Csv.{
  concat, label_keys, labels_row, summary_row, point_row, point_rows, elements, at_key, escape_csv,
  render_rows, csv_rows, to_csv,
}
use rpc_latency_monitor.RawApi.Csv.Reader.{
  Mode, at_start, plain, quoted, behind, Reader, next_row, reader, Ends, steps, finish, read_csv,
  then_steps, field_steps, comma_step, line_end_step,
}

-- No field holds a carriage return.
abbrev pub HasNoReturn : List String → Type 0
HasNoReturn row = All (λ s. has_char b'\r' s ≡ false) row

abbrev line : List String → String
line row = join "," (map escape_csv row)

-- The reader behind a line that is not ended yet.
record HasRead (rows : List (List String)) (row : List String) (text : String) (r : Reader)
    : Type 0 where
  mode : Mode
  field : String
  before : List String
  ends : Ends before rows mode
  reads : steps text r ≡ some (reader before rows mode field)
  whole : before ++ field ∷ [] ≡ row

line_steps :
    (f : String) (fs row : List String) (rows : List (List String))
    → HasNoReturn (f ∷ fs)
    → HasRead rows (row ++ f ∷ fs) (line (f ∷ fs)) (reader row rows at_start "")
line_steps f [] row rows (k, ks) =
    let (m, ends, read) = field_steps row rows f k in
    record { mode = m; field = f; before = row; ends = ends; reads = read; whole = refl }
line_steps f (g ∷ fs) row rows (k, ks) =
    let (m, ends, read) = field_steps row rows f k in
    let rest = line_steps g fs (row ++ f ∷ []) rows ks in
    record {
      mode = rest.mode;
      field = rest.field;
      before = rest.before;
      ends = rest.ends;
      reads =
          then_steps (escape_csv f) ("," <> line (g ∷ fs)) (reader row rows at_start "")
            (reader row rows m f) (some (reader rest.before rows rest.mode rest.field)) read
            (then_steps "," (line (g ∷ fs)) (reader row rows m f)
              (reader (row ++ f ∷ []) rows at_start "")
              (some (reader rest.before rows rest.mode rest.field)) (comma_step row rows m f ends)
              rest.reads);
      whole = rest.whole ∙ append_assoc row (f ∷ []) (g ∷ fs);
    }

-- The rows that are read at the end of the text.
abbrev read_rows : Option Reader → Option (List (List String))
read_rows o = o >>= λ r. finish r.mode r

finish_row :
    (rows : List (List String)) (row before : List String) (m : Mode) (field : String)
    → Ends before rows m
    → before ++ field ∷ [] ≡ row
    → finish m (reader before rows m field) ≡ some (rows ++ row ∷ [])
unfolding finish
finish_row rows row before at_start field e h = ap (λ r. some (rows ++ r ∷ [])) h
finish_row rows row before plain field e h = ap (λ r. some (rows ++ r ∷ [])) h
finish_row rows row before behind field e h = ap (λ r. some (rows ++ r ∷ [])) h
finish_row rows row before quoted field e h = absurd e

-- The rows hold a field each.
abbrev pub IsFull : List (List String) → Type 0
IsFull [] = Unit
IsFull (row ∷ rows) = (row ≢ []) × IsFull rows

rows_steps :
    (f : String) (fs : List String) (rest rows : List (List String))
    → IsFull rest
    → All HasNoReturn ((f ∷ fs) ∷ rest)
    → read_rows (steps (render_rows ((f ∷ fs) ∷ rest)) (reader [] rows at_start ""))
      ≡ some (rows ++ (f ∷ fs) ∷ rest)
unfolding render_rows
rows_steps f fs [] rows full (k, ks) =
    let l = line_steps f fs [] rows k in
    ap read_rows l.reads ∙ finish_row rows (f ∷ fs) l.before l.mode l.field l.ends l.whole
rows_steps f fs ([] ∷ rest) rows full ks = absurd (full.0 refl)
rows_steps f fs ((g ∷ gs) ∷ rest) rows full (k, ks) =
    let l = line_steps f fs [] rows k in
    let text = render_rows ((g ∷ gs) ∷ rest) in
    let ended = reader l.before rows l.mode l.field in
    let read =
      then_steps (line (f ∷ fs)) ("\n" <> text) (reader [] rows at_start "") ended
        (steps text (next_row ended)) l.reads
        (then_steps "\n" text ended (next_row ended) (steps text (next_row ended))
          (line_end_step l.before rows l.mode l.field l.ends) refl) in
    ap read_rows (read ∙ ap (λ row. steps text (reader [] (rows ++ row ∷ []) at_start "")) l.whole)
    ∙ rows_steps g gs rest (rows ++ (f ∷ fs) ∷ []) full.1 ks
    ∙ ap some (append_assoc rows ((f ∷ fs) ∷ []) ((g ∷ gs) ∷ rest))

-- Rows with a field each, without carriage returns, are read back as they were.
pub read-render :
    (row : List String) (rows : List (List String))
    → IsFull (row ∷ rows)
    → All HasNoReturn (row ∷ rows)
    → read_csv (render_rows (row ∷ rows)) ≡ some (row ∷ rows)
unfolding read_csv
read-render [] rows full ks = absurd (full.0 refl)
read-render (f ∷ fs) rows full ks = rows_steps f fs rows [] full.1 ks

map-IsFull :
    {A : Type 0} (f : A → List String) (xs : List A) → ((x : A) → f x ≢ []) → IsFull (map f xs)
map-IsFull f [] h = tt
map-IsFull f (x ∷ xs) h = (h x, map-IsFull f xs h)

append-IsFull : (xs ys : List (List String)) → IsFull xs → IsFull ys → IsFull (xs ++ ys)
append-IsFull [] ys a b = b
append-IsFull (x ∷ xs) ys (h, a) b = (h, append-IsFull xs ys a b)

concat-IsFull :
    {A : Type 0} (f : A → List (List String)) (xs : List A)
    → ((x : A) → IsFull (f x))
    → IsFull (concat (map f xs))
concat-IsFull f [] h = tt
concat-IsFull f (x ∷ xs) h = append-IsFull (f x) (concat (map f xs)) (h x) (concat-IsFull f xs h)

more_fields : (xs : List String) (y : String) (ys : List String) → xs ++ y ∷ ys ≢ []
more_fields [] y ys e = cc
more_fields (x ∷ xs) y ys e = cc

module _ ⦃c : Crates⦄ where
  open c use {Value, get}

  -- Where no field of the rows holds a carriage return, whatever else the labels and the values of the
  -- series hold, commas, quotes and line feeds among them: a reader that goes by RFC 4180, but for
  -- rows that end with a line feed alone, and that refuses a carriage return outside of quotes, reads
  -- from the text of `to_csv` the very rows that were written, the header first.
  pub read_csv-to_csv :
      (series : List Value)
      → All HasNoReturn (csv_rows series)
      → read_csv (to_csv series) ≡ some (csv_rows series)
  unfolding to_csv
  read_csv-to_csv series returns =
      let keys = label_keys series in
      elim (Bool-cases (any (λ s. is_some (get s "winPct")) series)) [
        | inl summary ↦ rw summary (
            read-render (keys ++ "wins" ∷ "samples" ∷ "win_pct" ∷ [])
              (map (summary_row keys) series)
              (
                more_fields keys "wins" ("samples" ∷ "win_pct" ∷ []),
                map-IsFull (summary_row keys) series
                    (λ entry. more_fields (labels_row keys entry) _ _),
              )
              (rw summary at returns))
        | inr points ↦ rw points (
            read-render ("timestamp" ∷ keys ++ "value" ∷ []) (concat (map (point_rows keys) series))
              (
                (λ e. cc),
                concat-IsFull (point_rows keys) series (λ entry.
                    map-IsFull (point_row keys entry) (elements (at_key entry "points"))
                      (λ p e. cc)),
              )
              (rw points at returns))
      ]
