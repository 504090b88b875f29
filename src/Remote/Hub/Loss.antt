-- ===== src/Remote/Hub/Loss.antt =====
-- The loss counters of a route against the numbers that the hub gave to its datagrams.
use everything_imu.Prelude.{
  ℕ, ◌+◌, ◌-◌, ◌%◌, ◌^◌, ◌<◌, ◌≡◌, ap, ◌∙◌, if_false, List, [], ◌∷◌, some, length, arith, leb,
}
use everything_imu.Remote.Hub.{LossStats, new_loss, gap_loss, record_loss}

-- The counters after datagrams with these numbers, which the wire carries modulo 2 ^ 16, at these times.
unfoldable pub arrived : LossStats → List (ℕ × ℕ) → LossStats
unfolding record_loss
arrived s [] = s
arrived s ((n, now) ∷ arrivals) = arrived (record_loss s (n % 2 ^ 16) now) arrivals

-- Numbers that go up from `n` by less than 1000 at a time, within ten seconds of `start`.
abbrev pub IsStream : ℕ → ℕ → List (ℕ × ℕ) → Type 0
IsStream start n [] = Unit {0}
IsStream start n ((m, now) ∷ arrivals) =
    (n < m) × (m < n + 1000) × (now < start + 10000) × IsStream start m arrivals

abbrev pub last_number : ℕ → List (ℕ × ℕ) → ℕ
last_number n [] = n
last_number n ((m, now) ∷ arrivals) = last_number m arrivals

gap_loss_lem :
    (n m : ℕ) → n < m → m < n + 1000 → gap_loss (some (n % 2 ^ 16)) (m % 2 ^ 16) ≡ m - n - 1
gap_loss_lem n m h k = ground arith

-- One window's counters, when the last number was `n`.
record IsWindow (start n : ℕ) (s : LossStats) : Type 0 where
  seq : s.last_seq ≡ some (n % 2 ^ 16)
  since : s.window_start ≡ some start

-- A datagram within the window.
kept :
    (start seq now : ℕ) (s : LossStats)
    → now < start + 10000
    → s.window_start ≡ some start
    → record_loss s seq now ≡ record {
      last_seq = some seq;
      received = s.received + 1;
      lost = s.lost + gap_loss s.last_seq seq;
      window_start = some start;
    }
unfolding record_loss
kept start seq now s t w = rw w (if_false (leb 10000 (now - start)) _ _ (ground arith))

record_loss-IsWindow :
    (start n m now : ℕ) (s : LossStats)
    → n < m
    → m < n + 1000
    → now < start + 10000
    → IsWindow start n s
    → IsWindow start m (record_loss s (m % 2 ^ 16) now)
      × ((record_loss s (m % 2 ^ 16) now).received ≡ s.received + 1)
      × ((record_loss s (m % 2 ^ 16) now).lost ≡ s.lost + (m - n - 1))
record_loss-IsWindow start n m now s h k t w =
    let e = kept start (m % 2 ^ 16) now s t w.since in
    (
      record {
        seq = ap (λ (x : LossStats). x.last_seq) e;
        since = ap (λ (x : LossStats). x.window_start) e;
      },
      ap (λ (x : LossStats). x.received) e,
      ap (λ (x : LossStats). x.lost) e
          ∙ ap (λ l. s.lost + gap_loss l (m % 2 ^ 16)) w.seq
          ∙ ap (λ d. s.lost + d) (gap_loss_lem n m h k),
    )

first_kept :
    (start seq : ℕ)
    → record_loss new_loss seq start
      ≡ record { last_seq = some seq; received = 1; lost = 0; window_start = some start }
unfolding record_loss
first_kept start seq = if_false (leb 10000 (start - start)) _ _ (ground arith)

arrived-counts :
    (start n : ℕ) (s : LossStats) (arrivals : List (ℕ × ℕ))
    → IsWindow start n s
    → IsStream start n arrivals
    → ((arrived s arrivals).received ≡ s.received + length arrivals)
      × ((arrived s arrivals).lost + length arrivals + n ≡ s.lost + last_number n arrivals)
unfolding arrived
arrived-counts start n s [] w h = (omega arith, omega arith)
arrived-counts start n s ((m, now) ∷ arrivals) w (h, k, t, rest) =
    let (w', r, l) = record_loss-IsWindow start n m now s h k t w in
    let (received, lost) =
      arrived-counts start m (record_loss s (m % 2 ^ 16) now) arrivals w' rest in
    (omega (arith, received, r), omega (arith, lost, l, h))

-- The first datagram of a route has the number `n` and comes at `start`; the others go up by less than
-- 1000 at a time and come within ten seconds. Then `received` is their count, and `received` and
-- `lost` together are the count of the numbers from the first to the last: also where the 16 bits wrap.
pub arrived_lem :
    (start n : ℕ) (arrivals : List (ℕ × ℕ))
    → IsStream start n arrivals
    → ((arrived new_loss ((n, start) ∷ arrivals)).received ≡ 1 + length arrivals)
      × ((arrived new_loss ((n, start) ∷ arrivals)).received
            + (arrived new_loss ((n, start) ∷ arrivals)).lost
            + n
          ≡ last_number n arrivals + 1)
unfolding arrived
arrived_lem start n arrivals h =
    let first = first_kept start (n % 2 ^ 16) in
    let w : IsWindow start n (record_loss new_loss (n % 2 ^ 16) start) = record {
      seq = ap (λ (x : LossStats). x.last_seq) first;
      since = ap (λ (x : LossStats). x.window_start) first;
    } in
    let received : (record_loss new_loss (n % 2 ^ 16) start).received ≡ 1 =
      ap (λ (x : LossStats). x.received) first in
    let lost : (record_loss new_loss (n % 2 ^ 16) start).lost ≡ 0 =
      ap (λ (x : LossStats). x.lost) first in
    let (r, l) = arrived-counts start n (record_loss new_loss (n % 2 ^ 16) start) arrivals w h in
    (omega (arith, r, received), omega (arith, r, received, l, lost))
