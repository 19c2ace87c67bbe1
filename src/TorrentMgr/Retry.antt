-- ===== src/TorrentMgr/Retry.antt =====
-- src/torrent_mgr.c: how long a failed peer has to wait.
use ps5torrent.Base.{ℕ, zero, suc, ◌≤◌, ◌≡◌, refl, true, arith, ltb, leb, sym, if◌then◌else◌, ◌==◌}
use ps5torrent.TorrentMgr.Candidates.{retry_delay}

-- The wait by the number of failures.
abbrev pub wait : ℕ → ℕ
wait n =
    if leb n 1
    then 30
    else if n == 2
    then 60
    else if n == 3
    then 120
    else if n == 4
    then 240
    else 300

retry_delay-wait : (n : ℕ) → retry_delay n ≡ wait n
unfolding retry_delay
retry_delay-wait zero = refl
retry_delay-wait (suc zero) = refl
retry_delay-wait (suc (suc zero)) = refl
retry_delay-wait (suc (suc (suc zero))) = refl
retry_delay-wait (suc (suc (suc (suc zero)))) = refl
retry_delay-wait (suc (suc (suc (suc (suc n))))) =
    let many : ltb 4 (suc (suc (suc (suc (suc n))))) ≡ true = ground arith in
    let w : wait (suc (suc (suc (suc (suc n))))) ≡ 300 = ground arith in rw many (sym w)

wait_mono : (n m : ℕ) → n ≤ m → (30 ≤ wait n) × (wait n ≤ wait m) × (wait m ≤ 300)
wait_mono n m h = ground arith

-- The wait is between 30 and 300 seconds, and does not get shorter with more failures.
pub retry_delay_lem :
    (n m : ℕ)
    → n ≤ m
    → (30 ≤ retry_delay n) × (retry_delay n ≤ retry_delay m) × (retry_delay m ≤ 300)
retry_delay_lem n m h = rw (retry_delay-wait n, retry_delay-wait m) (wait_mono n m h)
