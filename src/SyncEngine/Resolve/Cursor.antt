-- ===== src/SyncEngine/Resolve/Cursor.antt =====
-- resolve.go: which records the sync cursor lets through.
use native.Mathlib.Decide.{dec_le}
use mathlib.Core.List.{filter, Mem, mem-filter}
use personal_context.Base.{◌≡◌, ◌≤◌, ◌↔◌, refl, List, [], ◌∷◌, nat_eq, arith}
use personal_context.Time.{
  Time, truncate_to_millisecond, truncate_to_millisecond_mono, truncate_to_millisecond_idem,
}
use personal_context.Repository.Types.{Record}
use personal_context.SyncEngine.Resolve.{updated_from, filter_records_updated_since}

-- A record that was not updated before the cursor's millisecond.
abbrev pub IsChanged : Time → Record → Type 0
IsChanged since r = truncate_to_millisecond since ≤ truncate_to_millisecond r.updated_at

changed_records : Time → List Record → List Record
changed_records since =
    filter (λ r. dec_le (truncate_to_millisecond since) (truncate_to_millisecond r.updated_at))

updated_from-changed_records :
    (since : Time) (records : List Record)
    → updated_from (truncate_to_millisecond since) records ≡ changed_records since records
unfolding updated_from changed_records
updated_from-changed_records since [] = refl
updated_from-changed_records since (r ∷ records) =
    ground (arith, updated_from-changed_records since records)

changed_records-zero : (records : List Record) → changed_records 0 records ≡ records
unfolding changed_records truncate_to_millisecond
changed_records-zero [] = refl
changed_records-zero (r ∷ records) = ground (arith, changed_records-zero records)

-- The zero cursor of a first sync is no special case.
filter_records-changed_records :
    (records : List Record) (since : Time)
    → filter_records_updated_since records since ≡ changed_records since records
unfolding filter_records_updated_since
filter_records-changed_records records since =
    ground (arith, updated_from-changed_records since records, changed_records-zero records)

-- A sync looks at exactly the records that were not updated before the millisecond of its cursor,
-- the zero cursor of a first sync included.
pub mem-filter_records_updated_since :
    (r : Record) (records : List Record) (since : Time)
    → Mem r (filter_records_updated_since records since) ↔ (Mem r records × IsChanged since r)
unfolding changed_records
mem-filter_records_updated_since r records since =
    rw (filter_records-changed_records records since) (mem-filter _)

-- A record updated at or after the start of one sync is looked at by the next one, whose cursor
-- is that start cut to a millisecond.
pub filter_records_updated_since_complete :
    (r : Record) (records : List Record) (started : Time)
    → Mem r records
    → started ≤ r.updated_at
    → Mem r (filter_records_updated_since records (truncate_to_millisecond started))
filter_records_updated_since_complete r records started m h =
    (mem-filter_records_updated_since r records (truncate_to_millisecond started)).1
      (m, rw truncate_to_millisecond_idem (truncate_to_millisecond_mono started r.updated_at h))
