-- ===== src/Slime/Client/Interleaved/Counts.antt =====
-- Counts of handshake events, in whatever order they stand.
use everything_imu.Prelude.{ℕ, ◌+◌, ◌%◌, ◌^◌, ◌≡◌, ap, ◌∙◌, List, [], ◌∷◌, ◌++◌, false, not, arith}
use everything_imu.Slime.Client.{HandshakeEvent}
use everything_imu.Slime.Client.History.{one_if}

-- The events that say true, and those that say false.
abbrev pub count_found : List HandshakeEvent → ℕ
count_found [] = 0
count_found (e ∷ es) = one_if e.confirmed + count_found es

abbrev pub count_lost : List HandshakeEvent → ℕ
count_lost [] = 0
count_lost (e ∷ es) = one_if (not e.confirmed) + count_lost es

-- The events that say false carry the numbers behind `k`, one after the other.
abbrev pub IsNumbered : ℕ → List HandshakeEvent → Type 0
IsNumbered k [] = Unit {0}
IsNumbered k (e ∷ es) =
    (e.confirmed ≡ false → e.reset_count ≡ (k + 1) % 2 ^ 64)
    × IsNumbered (k + one_if (not e.confirmed)) es

pub count_found-push :
    (es : List HandshakeEvent) (e : HandshakeEvent)
    → count_found (es ++ e ∷ []) ≡ count_found es + one_if e.confirmed
count_found-push [] e = omega arith
count_found-push (x ∷ es) e = omega (arith, count_found-push es e)

pub count_lost-push :
    (es : List HandshakeEvent) (e : HandshakeEvent)
    → count_lost (es ++ e ∷ []) ≡ count_lost es + one_if (not e.confirmed)
count_lost-push [] e = omega arith
count_lost-push (x ∷ es) e = omega (arith, count_lost-push es e)

pub IsNumbered-push :
    (k : ℕ) (es : List HandshakeEvent) (e : HandshakeEvent)
    → IsNumbered k es
    → (e.confirmed ≡ false → e.reset_count ≡ (k + count_lost es + 1) % 2 ^ 64)
    → IsNumbered k (es ++ e ∷ [])
IsNumbered-push k [] e h f = (λ no. f no ∙ ap (λ n. n % 2 ^ 64) {y = k + 1} (omega arith), tt)
IsNumbered-push k (x ∷ es) e (hx, h) f = (
  hx,
  IsNumbered-push (k + one_if (not x.confirmed)) es e h (λ no.
      f no
      ∙ ap (λ n. n % 2 ^ 64) {y = k + one_if (not x.confirmed) + count_lost es + 1} (omega arith)),
)
