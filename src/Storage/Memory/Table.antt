-- ===== src/Storage/Memory/Table.antt =====
-- The abstract store: one table of rows that every operation scans, with no index.
use zanzo.Base.{Bool, not, ◌&&◌, List, [], ◌∷◌, ◌++◌, map, if◌then◌else◌, Str, eq_str, filter, any}
use zanzo.Storage.Types.{Subject, Tuple, Revision, subject_string}
use zanzo.Storage.Memory.{Row, key, is_live_for, is_visible, is_skipped, mark_row}

abbrev pub tuple_key : Tuple → Str
tuple_key t = key t.object t.relation

abbrev pub has_key : Str → Row → Bool
has_key k r = eq_str (tuple_key r.tuple) k

abbrev pub has_subject : Str → Row → Bool
has_subject k r = eq_str (subject_string r.tuple.subject) k

abbrev pub new_row : Revision → Tuple → Row
new_row rev t = record { tuple = t; created = rev; deleted = 0 }

abbrev pub scan_remove : Revision → Tuple → List Row → List Row
scan_remove rev t rows =
    map (λ r. if has_key (tuple_key t) r then mark_row rev t.subject r else r) rows

abbrev pub scan_add : Revision → Tuple → List Row → List Row
scan_add rev t rows =
    if any (is_live_for t.subject) (filter (has_key (tuple_key t)) rows)
    then rows
    else rows ++ (new_row rev t ∷ [])

abbrev pub scan_removes : Revision → List Tuple → List Row → List Row
scan_removes rev [] rows = rows
scan_removes rev (t ∷ ts) rows = scan_removes rev ts (scan_remove rev t rows)

abbrev pub scan_adds : Revision → List Tuple → List Row → List Row
scan_adds rev [] rows = rows
scan_adds rev (t ∷ ts) rows = scan_adds rev ts (scan_add rev t rows)

abbrev pub scan_read : Revision → Str → List Row → List Tuple
scan_read rev k rows =
    map (λ (r : Row). r.tuple) (filter (is_visible rev) (filter (has_key k) rows))

abbrev pub scan_by_subject : Revision → Subject → Str → List Row → List Tuple
scan_by_subject rev s relation rows =
    map (λ (r : Row). r.tuple)
      (filter (λ r. not (is_skipped relation r) && is_visible rev r)
        (filter (has_subject (subject_string s)) rows))
