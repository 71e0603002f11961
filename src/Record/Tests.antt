-- ===== src/Record/Tests.antt =====
-- Runs of the record layer on a small file, and the instances of its theorems there.
use cscc_db_rucbase.Common.{
  ◌<◌, true, List, [], ◌∷◌, none, some, ◌≡◌, refl, arith, length, map, has_bit,
}
use cscc_db_rucbase.Transaction.LockDataId.{Rid}
use cscc_db_rucbase.Record.Bitmap.{is_set, next_bit}
use cscc_db_rucbase.Record.Bitmap.Laws.{IsNext, next_bit-IsNext}
use cscc_db_rucbase.Record.File.{
  RmFile, ok, get_record, insert_record, insert_record_at, delete_record, update_record, ◌>>=◌,
}
use cscc_db_rucbase.Record.File.Invariant.{IsFile, IsLayout, record_at}
use cscc_db_rucbase.Record.File.Change.{
  update_record-Changed, delete_record-Changed, get_record-record_at, answered,
}
use cscc_db_rucbase.Record.File.Places.{Changed, held_page}
use cscc_db_rucbase.Record.File.Fill.{Inserted, insert_record-Inserted, insert_record_at-Changed}
use cscc_db_rucbase.Record.Manager.{
  create_file, new_header, create_file-IsLayout, open_file, open_file-empty,
}
use cscc_db_rucbase.Record.Example.{
  small_page, small_file, always, taken_place, free_place, small_file-IsFile, taken_there,
}
use cscc_db_rucbase.Record.Scan.{rm_scan, collect}
use cscc_db_rucbase.Record.Scan.Order.{set_slots, remaining, content}
use cscc_db_rucbase.Record.Scan.Listing.{listing}
use cscc_db_rucbase.Record.Scan.Complete.{IsScan, rm_scan-IsScan}

scan_of_small : listing small_file ≡ taken_place ∷ []
unfolding listing remaining set_slots is_set has_bit
scan_of_small = refl

next_bit-IsNext_example : IsNext true (64 ∷ []) 3 0 (next_bit true (64 ∷ []) 3 0)
next_bit-IsNext_example = next_bit-IsNext true (64 ∷ []) 3 0 (omega arith)

update_record-Changed_example :
    (g : RmFile) × (update_record always taken_place (5 ∷ 6 ∷ []) small_file ≡ (g, ok tt))
    × Changed small_file g taken_place (some (5 ∷ 6 ∷ []))
update_record-Changed_example =
    update_record-Changed always small_file taken_place (7 ∷ 8 ∷ []) small_file-IsFile taken_there
      refl (5 ∷ 6 ∷ []) refl

delete_record-Changed_example :
    (g : RmFile) × (delete_record always taken_place small_file ≡ (g, ok tt))
    × Changed small_file g taken_place none
delete_record-Changed_example =
    delete_record-Changed always small_file taken_place (7 ∷ 8 ∷ []) small_file-IsFile taken_there
      refl

get_record-record_at_example :
    get_record always taken_place small_file
    ≡ answered small_file
        (held_page always small_file taken_place)
        (record_at small_file taken_place)
get_record-record_at_example =
    get_record-record_at always small_file taken_place (omega arith, omega arith) (omega arith) refl

insert_record-Inserted_example :
    (g : RmFile) × (rid : Rid) × (insert_record always (5 ∷ 6 ∷ []) small_file ≡ (g, ok rid))
    × Inserted small_file g rid (5 ∷ 6 ∷ [])
insert_record-Inserted_example =
    insert_record-Inserted always small_file (5 ∷ 6 ∷ []) small_file-IsFile refl refl

insert_record_at-Changed_example :
    (g : RmFile) × (insert_record_at always free_place (5 ∷ 6 ∷ []) small_file ≡ (g, ok tt))
    × Changed small_file g free_place (some (5 ∷ 6 ∷ []))
insert_record_at-Changed_example =
    insert_record_at-Changed always small_file free_place (5 ∷ 6 ∷ []) small_file-IsFile
      (omega arith, omega arith) (omega arith) refl refl (λ full. refl)

new_file : create_file 16 ≡ some (new_header 16)
unfolding create_file
new_file = refl

create_file-IsLayout_example : IsLayout (new_header 16)
create_file-IsLayout_example = create_file-IsLayout 16 (new_header 16) new_file

open_file-empty_example :
    IsFile (open_file (new_header 16) (λ n. small_page))
    × ((rid : Rid) → record_at (open_file (new_header 16) (λ n. small_page)) rid ≡ none)
open_file-empty_example = open_file-empty 16 (new_header 16) (λ n. small_page) new_file

short_listing : length (listing small_file) < 2
short_listing = rw scan_of_small (omega arith)

rm_scan-IsScan_example :
    (rs : List Rid) × ((rm_scan always >>= collect always 2) small_file
      ≡ (small_file, ok (map (content small_file) rs)))
    × IsScan small_file rs
rm_scan-IsScan_example = rm_scan-IsScan always small_file 2 (λ n. refl) short_listing
