-- ===== src/Remote/Protocol/Total.antt =====
-- `parse` on every datagram.
use everything_imu.Prelude.{
  ℕ, zero, suc, ◌+◌, ◌*◌, ◌≤◌, refl, List, Option, none, some, Bool, true, false, ltb, leb, ◌==◌,
  if◌then◌else◌, if_cases, length, arith,
}
use everything_imu.Slices.{
  guarded, chosen, ◌>>=◌, at, slice, u16le, f32le, u64le, Returns, >>=-Returns, at-Returns,
  slice-Returns, u16le-Returns, f32le-Returns, u64le-Returns,
}
use everything_imu.Remote.Utf8.{from_utf8}
use everything_imu.Remote.Protocol.{
  RemoteMsg, nonzero, read_vector, read_mag, read_sample, read_samples, parse_imu_samples,
  parse_hello, read_ts, read_announce, or_return, parse_announce, parse_battery, parse_button,
  parse_imu2, parse_body, parse, kind_from_wire, DeviceKind,
}

read_vector-Returns : (p : List ℕ) (o : ℕ) → o + 12 ≤ length p → Returns (read_vector p o)
unfolding read_vector
read_vector-Returns p o h = >>=-Returns (f32le p o) _ (f32le-Returns p o (omega arith)) (λ x ex.
    >>=-Returns (f32le p (o + 4)) _ (f32le-Returns p (o + 4) (omega arith)) (λ y ey.
      >>=-Returns (f32le p (o + 8)) _ (f32le-Returns p (o + 8) (omega arith)) (λ z ez. (_, refl))))

read_mag-Returns : (p : List ℕ) (o : ℕ) (b : Bool) → o + 12 ≤ length p → Returns (read_mag p o b)
unfolding read_mag
read_mag-Returns p o true h =
    >>=-Returns (read_vector p o) _ (read_vector-Returns p o h) (λ v ev. (_, refl))
read_mag-Returns p o false h = (_, refl)

read_sample-Returns : (p : List ℕ) (off : ℕ) → off + 45 ≤ length p → Returns (read_sample p off)
unfolding read_sample
read_sample-Returns p off h =
    >>=-Returns (u64le p off) _ (u64le-Returns p off (omega arith)) (λ ts ets.
      >>=-Returns (at p (off + 32)) _ (at-Returns p (off + 32) (omega arith)) (λ m em.
        >>=-Returns (read_vector p (off + 8)) _ (read_vector-Returns p (off + 8) (omega arith))
          (λ g eg.
            >>=-Returns (read_vector p (off + 20)) _
              (read_vector-Returns p (off + 20) (omega arith))
              (λ a ea.
                >>=-Returns (read_mag p (off + 33) (nonzero m)) _
                  (read_mag-Returns p (off + 33) (nonzero m) (omega arith)) (λ v ev. (_, refl))))))

read_samples-Returns :
    (p : List ℕ) (off count : ℕ) → off + count * 45 ≤ length p → Returns (read_samples p off count)
unfolding read_samples
read_samples-Returns p off zero h = (_, refl)
read_samples-Returns p off (suc count) h =
    >>=-Returns (read_sample p off) _ (read_sample-Returns p off (omega arith)) (λ s es.
      >>=-Returns (read_samples p (off + 45) count) _
        (read_samples-Returns p (off + 45) count (omega arith)) (λ ss ess. (_, refl)))

parse_imu_samples-Returns : (p : List ℕ) (extra : ℕ) → Returns (parse_imu_samples p extra)
unfolding parse_imu_samples
parse_imu_samples-Returns p extra =
    guarded (length p) (3 + extra) _ _ (_, refl)
      (λ h. >>=-Returns (u16le p 0) _ (u16le-Returns p 0 (omega arith)) (λ handle eh.
        >>=-Returns (at p (2 + extra)) _ (at-Returns p (2 + extra) (omega arith)) (λ count ec.
          guarded (length p) (3 + extra + count * 45) _ _ (_, refl)
            (λ k.
              >>=-Returns (read_samples p (3 + extra) count) _
                (read_samples-Returns p (3 + extra) count k) (λ ss es. (_, refl))))))

read_ts-Returns : (tail : List ℕ) → Returns (read_ts tail)
unfolding read_ts
read_ts-Returns tail =
    if_cases Returns (leb 8 (length tail))
      (λ e.
        >>=-Returns (u64le tail 0) _ (u64le-Returns tail 0 (ground arith)) (λ ts ets. (_, refl)))
      (λ e. (_, refl))

parse_hello-Returns : (p : List ℕ) → Returns (parse_hello p)
unfolding parse_hello
parse_hello-Returns p =
    guarded (length p) 17 _ _ (_, refl)
      (λ h.
        >>=-Returns (slice p 0 16) _ (slice-Returns p 0 16 (omega arith) (omega arith)) (λ uuid eu.
          >>=-Returns (at p 16) _ (at-Returns p 16 (omega arith)) (λ n en.
            guarded (length p) (17 + n) _ _ (_, refl)
              (λ k.
                >>=-Returns (slice p 17 (17 + n)) _ (slice-Returns p 17 (17 + n) (omega arith) k)
                  (λ name ea.
                    >>=-Returns (slice p (17 + n) (length p)) _
                      (slice-Returns p (17 + n) (length p) k (omega arith))
                      (λ tail et.
                        >>=-Returns (read_ts tail) _ (read_ts-Returns tail)
                          (λ ts ets. (_, refl))))))))

read_announce-Returns :
    (p : List ℕ) (kind : DeviceKind) (handle : ℕ) (mac name : List ℕ)
    → 15 ≤ length p
    → Returns (read_announce p kind handle mac name)
unfolding read_announce
read_announce-Returns p kind handle mac name h =
    >>=-Returns (at p 9) _ (at-Returns p 9 (omega arith)) (λ m em.
      >>=-Returns (at p 10) _ (at-Returns p 10 (omega arith)) (λ b eb.
        >>=-Returns (at p 11) _ (at-Returns p 11 (omega arith)) (λ r er.
          >>=-Returns (u16le p 12) _ (u16le-Returns p 12 (omega arith)) (λ hz ehz. (_, refl)))))

or_return-Returns :
    {A : Type 0} (o : Option A) (next : A → Option (Option RemoteMsg))
    → ((a : A) → Returns (next a))
    → Returns (or_return o next)
or_return-Returns none next h = (_, refl)
or_return-Returns (some a) next h = h a

parse_announce-Returns : (p : List ℕ) → Returns (parse_announce p)
unfolding parse_announce
parse_announce-Returns p =
    guarded (length p) 15 _ _ (_, refl)
      (λ h. >>=-Returns (u16le p 0) _ (u16le-Returns p 0 (omega arith)) (λ handle eh.
        >>=-Returns (at p 2) _ (at-Returns p 2 (omega arith)) (λ b eb.
          or_return-Returns (kind_from_wire b) _ (λ kind.
            >>=-Returns (slice p 3 9) _ (slice-Returns p 3 9 (omega arith) (omega arith)) (λ mac em.
              >>=-Returns (at p 14) _ (at-Returns p 14 (omega arith)) (λ n en.
                guarded (length p) (15 + n) _ _ (_, refl)
                  (λ k.
                    >>=-Returns (slice p 15 (15 + n)) _
                      (slice-Returns p 15 (15 + n) (omega arith) k)
                      (λ bytes ebs.
                        or_return-Returns (from_utf8 bytes) _
                          (λ name. read_announce-Returns p kind handle mac name h)))))))))

parse_imu2-Returns : (p : List ℕ) → Returns (parse_imu2 p)
unfolding parse_imu2
parse_imu2-Returns p =
    guarded (length p) 5 _ _ (_, refl)
      (λ h. >>=-Returns (u16le p 2) _ (u16le-Returns p 2 (omega arith)) (λ seq es.
        >>=-Returns (parse_imu_samples p 2) _ (parse_imu_samples-Returns p 2) (λ r er. (_, refl))))

parse_battery-Returns : (p : List ℕ) → Returns (parse_battery p)
unfolding parse_battery
parse_battery-Returns p =
    guarded (length p) 7 _ _ (_, refl)
      (λ h. >>=-Returns (u16le p 0) _ (u16le-Returns p 0 (omega arith)) (λ handle eh.
        >>=-Returns (f32le p 2) _ (f32le-Returns p 2 (omega arith)) (λ fraction ef.
          >>=-Returns (at p 6) _ (at-Returns p 6 (omega arith)) (λ c ec. (_, refl)))))

parse_button-Returns : (p : List ℕ) → Returns (parse_button p)
unfolding parse_button
parse_button-Returns p =
    guarded (length p) 3 _ _ (_, refl)
      (λ h. >>=-Returns (at p 2) _ (at-Returns p 2 (omega arith)) (λ reset er.
        >>=-Returns (u16le p 0) _ (u16le-Returns p 0 (omega arith)) (λ handle eh. (_, refl))))

parse_body-Returns : (msg : ℕ) (p : List ℕ) → Returns (parse_body msg p)
unfolding parse_body
parse_body-Returns msg p = chosen (msg == 1) _ _ (parse_hello-Returns p) (
    chosen (msg == 3) _ _ (parse_announce-Returns p) (
      chosen (msg == 4) _ _ removed (
        chosen (msg == 5) _ _
          (>>=-Returns (parse_imu_samples p 0) _ (parse_imu_samples-Returns p 0)
            (λ r er. (_, refl)))
          (chosen (msg == 9) _ _ (parse_imu2-Returns p) (
            chosen (msg == 6) _ _ (parse_battery-Returns p)
              (chosen (msg == 7) _ _ (parse_button-Returns p) (_, refl)))))))
  where
    removed : Returns (
        if ltb (length p) 2
        then some none
        else (u16le p 0 >>= λ handle. some (some (RemoteMsg.remove handle))))
    removed =
        guarded (length p) 2 _ _ (_, refl)
          (λ h.
            >>=-Returns (u16le p 0) _ (u16le-Returns p 0 (omega arith)) (λ handle eh. (_, refl)))

-- `parse` returns on every buffer: no read of it is out of range, whatever the lengths and counts in
-- the datagram say.
pub parse-Returns : (buf : List ℕ) → Returns (parse buf)
unfolding parse
parse-Returns buf =
    guarded (length buf) 6 _ _ (_, refl)
      (λ h.
        >>=-Returns (slice buf 0 4) _ (slice-Returns buf 0 4 (omega arith) (omega arith))
          (λ front ef. >>=-Returns (at buf 4) _ (at-Returns buf 4 (omega arith)) (λ v ev.
            chosen _ _ _ (_, refl)
              (>>=-Returns (at buf 5) _ (at-Returns buf 5 (omega arith)) (λ msg em.
                >>=-Returns (slice buf 6 (length buf)) _
                  (slice-Returns buf 6 (length buf) h (omega arith))
                  (λ p ep. parse_body-Returns msg p))))))
