-- ===== src/Storage/Tests.antt =====
-- A pool at work: page A is fetched, released and deleted, and fetched again.
use cscc_db_rucbase.Common.{
  ℕ, ◌<◌, ◌≡◌, ◌≢◌, inl, refl, true, false, List, [], ◌∷◌, none, some, pos, negsuc, pos_part, find,
  store, erase_key, arith,
}
use cscc_db_rucbase.Replacer.Clock.{
  ClockReplacer, victim, pin, unpin, instance_size, is_unpinned, victim-finds, unpin-pin_counter,
}
use cscc_db_rucbase.Storage.BufferPool.{
  PageId, frames_from, new_pool, unpin_page, delete_page, delete_frame, BufferPoolInstance,
  frame_of, find_victim_page, update_page, fetch_into, fetch_page, unpin_frame, flush_page,
}
use cscc_db_rucbase.Storage.View.{is_free, Coherent}
use cscc_db_rucbase.Storage.Start.{new_pool-Coherent}
use cscc_db_rucbase.Storage.Fetch.{Fetched, fetch_page-Fetched, fetch_page-succeeds}
use cscc_db_rucbase.Storage.Flush.{Flushed, flush_page-Flushed}
use cscc_db_rucbase.Storage.Pins.{fetch_page-PinsMatch}
use cscc_db_rucbase.Storage.Pinned.{PinsMatch, KeepsPinned}
use cscc_db_rucbase.Storage.Unpin.{Unpinned, unpin_page-Unpinned}
use cscc_db_rucbase.Storage.Stale.{fetch_page-stale}

abbrev clock : ClockReplacer
clock = record { pin_counter = λ f. pos 0; pin_bit = λ f. true; pointer = 0 }

abbrev disk : PageId → List ℕ
disk id = pos_part id.page_no ∷ []

abbrev start : BufferPoolInstance
start = new_pool 0 clock disk

abbrev page_of : ℕ → PageId
page_of n = record { fd = 3; page_no = pos n }

named : (n : ℕ) → (page_of n).page_no ≢ negsuc 0
named n h = cc

fetch_page-Fetched_example :
    Fetched (page_of 1) start (fetch_page (page_of 1) start).0 (fetch_page (page_of 1) start).1
fetch_page-Fetched_example =
    fetch_page-Fetched (page_of 1) start (new_pool-Coherent 0 clock disk) (named 1)

new_pool-Coherent_example : Coherent start
new_pool-Coherent_example = new_pool-Coherent 0 clock disk

zero_free : is_free start 0 ≡ true
unfolding frames_from
zero_free = refl

fetch_page-succeeds_example : (g : ℕ) × ((fetch_page (page_of 1) start).1 ≡ some g)
fetch_page-succeeds_example = fetch_page-succeeds (page_of 1) start 0 (inl zero_free)

abbrev loaded : BufferPoolInstance
loaded = (fetch_page (page_of 1) start).0

loaded-Coherent : Coherent loaded
loaded-Coherent =
    (fetch_page-Fetched (page_of 1) start (new_pool-Coherent 0 clock disk) (named 1)).coherent

start-PinsMatch : PinsMatch start
start-PinsMatch = record { counted = λ f. refl; idle = λ f h. refl }

loaded-PinsMatch : PinsMatch loaded
loaded-PinsMatch =
    (fetch_page-PinsMatch (page_of 1) start (new_pool-Coherent 0 clock disk) start-PinsMatch).0

fetch_page-PinsMatch_example :
    PinsMatch (fetch_page (page_of 2) loaded).0
    × KeepsPinned loaded (fetch_page (page_of 2) loaded).0
fetch_page-PinsMatch_example =
    fetch_page-PinsMatch (page_of 2) loaded loaded-Coherent loaded-PinsMatch

loaded_unpins : (unpin_page (page_of 1) true loaded).1 ≡ true
unfolding unpin_page unpin_frame fetch_page fetch_into find_victim_page update_page frames_from find
    store erase_key
loaded_unpins = refl

unpin_page-Unpinned_example :
    Unpinned (page_of 1) true loaded (unpin_page (page_of 1) true loaded).0
unpin_page-Unpinned_example =
    unpin_page-Unpinned (page_of 1) true loaded loaded-Coherent loaded-PinsMatch loaded_unpins

loaded_flushes : (flush_page (page_of 1) loaded).1 ≡ true
unfolding flush_page fetch_page fetch_into find_victim_page update_page frames_from find store
    erase_key
loaded_flushes = refl

flush_page-Flushed_example : Flushed (page_of 1) loaded (flush_page (page_of 1) loaded).0
flush_page-Flushed_example = flush_page-Flushed (page_of 1) loaded loaded-Coherent loaded_flushes

-- Of three frames, 0 has come back from page 1, which frame 1 holds now, and 2 holds page 2.
abbrev three : BufferPoolInstance
three = record start { free_list = 0 ∷ 1 ∷ 2 ∷ [] }

abbrev deleted : BufferPoolInstance
deleted =
    (delete_page (page_of 1) (unpin_page (page_of 1) false (fetch_page (page_of 1) three).0).0).0

abbrev crowded : BufferPoolInstance
crowded = (fetch_page (page_of 2) (fetch_page (page_of 1) deleted).0).0

crowded_free : crowded.free_list ≡ 0 ∷ []
unfolding fetch_page fetch_into find_victim_page update_page unpin_page unpin_frame delete_page
    delete_frame find store erase_key
crowded_free = refl

crowded_missing : frame_of (page_of 7) crowded ≡ none
unfolding fetch_page fetch_into find_victim_page update_page unpin_page unpin_frame delete_page
    delete_frame find store erase_key
crowded_missing = refl

crowded_found : frame_of (crowded.pages 0).id crowded ≡ some 1
unfolding fetch_page fetch_into find_victim_page update_page unpin_page unpin_frame delete_page
    delete_frame find store erase_key
crowded_found = refl

fetch_page-stale_example : frame_of (crowded.pages 0).id (fetch_page (page_of 7) crowded).0 ≡ none
fetch_page-stale_example =
    fetch_page-stale (page_of 7) crowded 0 1 [] crowded_free crowded_missing crowded_found

victim-finds_example :
    (g : ℕ) × ((victim clock).1 ≡ some g) × (is_unpinned clock g ≡ true) × (g < instance_size)
victim-finds_example = victim-finds clock 5 (omega arith) refl

unpin-pin_counter_example : (unpin 5 (pin 5 clock)).pin_counter 5 ≡ pos 0
unpin-pin_counter_example = unpin-pin_counter clock 5 5
