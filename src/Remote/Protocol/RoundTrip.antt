-- ===== src/Remote/Protocol/RoundTrip.antt =====
-- Messages as a hub writes them, parsed: greetings, announcements, and all together.
use everything_imu.Prelude.{
  ℕ, ◌+◌, ◌<◌, ◌^◌, ◌≡◌, refl, sym, ap, ◌∙◌, List, [], ◌∷◌, ◌++◌, Option, none, some, Bool, true,
  leb, if_true, if_false, length, to_le, length-to_le, length-append, append-nil, append_assoc,
  arith,
}
use everything_imu.Slices.{
  at, slice, u16le, >>=_step, u64le-front, u16le-front, slice-front, slice-middle, at-skip,
  u16le-skip,
}
use everything_imu.Remote.Utf8.{is_utf8, from_utf8}
use everything_imu.Remote.Protocol.{
  version, kind_from_wire, Announce, RemoteMsg, hello, announce, remove, imu, battery, button,
  read_ts, hello_msg, parse_hello, read_announce, parse_announce, parse_body, parse,
  encode_hello_ack, encode_hello_ack_echo, encode_rumble,
}
use everything_imu.Remote.Protocol.Wire.{kind_id, flag, wire_ts, wire, IsTs, IsWire}
use everything_imu.Remote.Protocol.Motion.{
  passed, parse-header, returned, nonzero-flag, kind_from_wire-kind_id, from_utf8_lem,
  parse_battery-wire, parse_button-wire, parse_imu-wire, parse_imu2-wire,
}

read_ts-wire : (ts : Option ℕ) (tail : List ℕ) → IsTs ts tail → read_ts (wire_ts ts tail) ≡ some ts
unfolding read_ts
read_ts-wire none tail h = if_false (leb 8 (length tail)) _ _ (ground arith)
read_ts-wire (some ts) tail h =
    if_true (leb 8 (length (to_le 8 ts ++ tail))) _ _
      (ground (arith, length-append (to_le 8 ts) tail, length-to_le 8 ts))
    ∙ >>=_step _ _ (u64le-front ts tail h) refl

-- The name, the byte of its length before it and what stands behind it, after some bytes.
module _ (pre name behind : List ℕ) where
  abbrev named : List ℕ
  named = pre ++ (length name ∷ (name ++ behind))

  named-parts : named ≡ (pre ++ (length name ∷ [])) ++ (name ++ behind)
  named-parts = sym (append_assoc pre (length name ∷ []) (name ++ behind))

  length-named : length named ≡ length pre + 1 + length name + length behind
  length-named =
      omega (arith, length-append pre (length name ∷ (name ++ behind)), length-append name behind)

  at-count : (n : ℕ) → n ≡ length pre → at named n ≡ some (length name)
  at-count n h = at-skip pre (length name ∷ (name ++ behind)) n 0 (omega (arith, h))

  slice-name : (n : ℕ) → n ≡ length pre + 1 → slice named n (n + length name) ≡ some name
  slice-name n h =
      ap (λ l. slice l n (n + length name)) named-parts
      ∙ slice-middle (pre ++ (length name ∷ [])) name behind n (n + length name)
          (omega (arith, h, length-append pre (length name ∷ [])))
          (omega (arith, h, length-append pre (length name ∷ [])))

  slice-behind :
      (n : ℕ) → n ≡ length pre + 1 → slice named (n + length name) (length named) ≡ some behind
  slice-behind n h =
      ap (λ l. slice l (n + length name) (length named)) whole
      ∙ slice-middle ((pre ++ (length name ∷ [])) ++ name) behind [] (n + length name)
          (length named)
          (omega (
            arith,
            h,
            length-append pre (length name ∷ []),
            length-append (pre ++ (length name ∷ [])) name,
          ))
          (omega (
            arith,
            length-named,
            length-append pre (length name ∷ []),
            length-append (pre ++ (length name ∷ [])) name,
          ))
    where
      whole : named ≡ ((pre ++ (length name ∷ [])) ++ name) ++ (behind ++ [])
      whole =
          named-parts
          ∙ sym (append_assoc (pre ++ (length name ∷ [])) name behind)
          ∙ ap (λ l. ((pre ++ (length name ∷ [])) ++ name) ++ l) (sym (append-nil behind))

parse_hello-wire :
    (uuid name : List ℕ) (ts : Option ℕ) (tail : List ℕ)
    → length uuid ≡ 16
    → is_utf8 name ≡ true
    → IsTs ts tail
    → parse_hello (uuid ++ (length name ∷ (name ++ wire_ts ts tail)))
      ≡ some (some (hello uuid name ts))
unfolding parse_hello
parse_hello-wire uuid name ts tail hu hn ht =
    let behind = wire_ts ts tail in
    let p = named uuid name behind in
    let size = length-named uuid name behind in
    passed (length p) 17 _ _ (omega (arith, size)) (
      >>=_step (slice p 0 16) _ (slice-front uuid _ hu) (
        >>=_step (at p 16) _ (at-count uuid name behind 16 (omega arith)) (
          passed (length p) (17 + length name) _ _ (omega (arith, size)) (
            >>=_step (slice p 17 (17 + length name)) _
              (slice-name uuid name behind 17 (omega arith))
              (>>=_step (slice p (17 + length name) (length p)) _
                (slice-behind uuid name behind 17 (omega arith))
                (>>=_step (read_ts behind) _ (read_ts-wire ts tail ht)
                  (ap (λ n. some (hello_msg uuid n ts)) (from_utf8_lem name hn))))))))

-- The part of an announcement in front of the name.
abbrev front : Announce → List ℕ
front a =
    to_le 2 a.handle
    ++ (kind_id a.kind
        ∷ (a.mac ++ (flag a.has_mag ∷ flag a.has_battery ∷ flag a.has_rumble ∷ to_le 2 a.rate_hz)))

some_announce :
    (a : Announce) {h r : ℕ} {m b c : Bool}
    → h ≡ a.handle
    → m ≡ a.has_mag
    → b ≡ a.has_battery
    → c ≡ a.has_rumble
    → r ≡ a.rate_hz
    → Path
        (Option (Option RemoteMsg))
        (some (
          some (
            announce (record {
              handle = h;
              kind = a.kind;
              mac = a.mac;
              has_mag = m;
              has_battery = b;
              has_rumble = c;
              rate_hz = r;
              name = a.name;
            }))))
        (some (some (announce a)))
some_announce a eh em eb ec er = rw (eh, em, eb, ec, er)

length-front : (a : Announce) → length a.mac ≡ 6 → length (front a) ≡ 14
unfolding to_le
length-front a h = omega (
  arith,
  length-append a.mac (flag a.has_mag ∷ flag a.has_battery ∷ flag a.has_rumble ∷ to_le 2 a.rate_hz),
)

-- The payload of an announcement, and the two ways to take it apart.
abbrev announced : Announce → List ℕ → List ℕ
announced a tail =
    to_le 2 a.handle
    ++ (kind_id a.kind
        ∷ (a.mac
            ++ (flag a.has_mag
                ∷ flag a.has_battery
                ∷ flag a.has_rumble
                ∷ (to_le 2 a.rate_hz ++ (length a.name ∷ (a.name ++ tail))))))

named-announced : (a : Announce) (tail : List ℕ) → announced a tail ≡ named (front a) a.name tail
unfolding to_le
named-announced a tail =
    ap (λ l. to_le 2 a.handle ++ (kind_id a.kind ∷ l))
      (sym (
        append_assoc a.mac
          (flag a.has_mag ∷ flag a.has_battery ∷ flag a.has_rumble ∷ to_le 2 a.rate_hz)
          (length a.name ∷ (a.name ++ tail))))

abbrev behind_mac : Announce → List ℕ → List ℕ
behind_mac a tail =
    flag a.has_mag
    ∷ flag a.has_battery
    ∷ flag a.has_rumble
    ∷ (to_le 2 a.rate_hz ++ (length a.name ∷ (a.name ++ tail)))

read_announce-wire :
    (a : Announce) (tail : List ℕ)
    → length a.mac ≡ 6
    → a.handle < 2 ^ 16
    → a.rate_hz < 2 ^ 16
    → read_announce (announced a tail) a.kind a.handle a.mac a.name ≡ some (some (announce a))
unfolding read_announce to_le
read_announce-wire a tail hm hh hr =
    let pre = to_le 2 a.handle ++ (kind_id a.kind ∷ a.mac) in
    let p = announced a tail in
    >>=_step (at p 9) _ (at-skip pre (behind_mac a tail) 9 0 (omega arith)) (
      >>=_step (at p 10) _ (at-skip pre (behind_mac a tail) 10 1 (omega arith)) (
        >>=_step (at p 11) _ (at-skip pre (behind_mac a tail) 11 2 (omega arith)) (
          >>=_step (u16le p 12) _
            (u16le-skip pre (behind_mac a tail) 12 3 (omega arith)
              ∙ u16le-skip (flag a.has_mag ∷ flag a.has_battery ∷ flag a.has_rumble ∷ []) _ 3 0 refl
              ∙ u16le-front a.rate_hz _ hr)
            (some_announce a refl (nonzero-flag a.has_mag) (nonzero-flag a.has_battery)
              (nonzero-flag a.has_rumble) refl))))

parse_announce-wire :
    (a : Announce) (tail : List ℕ)
    → 0 < kind_id a.kind
    → length a.mac ≡ 6
    → a.handle < 2 ^ 16
    → a.rate_hz < 2 ^ 16
    → is_utf8 a.name ≡ true
    → parse_announce (announced a tail) ≡ some (some (announce a))
unfolding parse_announce to_le
parse_announce-wire a tail hk hm hh hr hn =
    let p = announced a tail in
    let e = named-announced a tail in
    let f = length-front a hm in
    let size : length p ≡ 15 + length a.name + length tail =
      ap length e ∙ omega (arith, length-named (front a) a.name tail) in
    passed (length p) 15 _ _ (omega (arith, size)) (
      >>=_step (u16le p 0) _ (u16le-front a.handle _ hh) (
        returned (kind_from_wire (kind_id a.kind)) _ (kind_from_wire-kind_id a.kind hk) (
          >>=_step (slice p 3 9) _
            (slice-middle (to_le 2 a.handle ++ (kind_id a.kind ∷ [])) a.mac (behind_mac a tail) 3 9
              refl (omega arith))
            (>>=_step (at p 14) _
              (ap (λ l. at l 14) e ∙ at-count (front a) a.name tail 14 (omega arith))
              (passed (length p) (15 + length a.name) _ _ (omega (arith, size)) (
                >>=_step (slice p 15 (15 + length a.name)) _
                  (ap (λ l. slice l 15 (15 + length a.name)) e
                    ∙ slice-name (front a) a.name tail 15 (omega arith))
                  (returned (from_utf8 a.name) _ (from_utf8_lem a.name hn)
                    (read_announce-wire a tail hm hh hr))))))))

parse_remove-wire :
    (handle : ℕ) (tail : List ℕ)
    → handle < 2 ^ 16
    → parse_body 4 (to_le 2 handle ++ tail) ≡ some (some (remove handle))
unfolding parse_body to_le
parse_remove-wire handle tail h =
    passed (length (to_le 2 handle ++ tail)) 2 _ _ (omega arith)
      (>>=_step (u16le (to_le 2 handle ++ tail) 0) _ (u16le-front handle tail h) refl)

-- A message that a hub writes, whatever stands behind it in the datagram, is parsed as that
-- message. Its fields lie in the ranges of the wire, its name is UTF-8, its kind has a wire id,
-- its reset is a yaw or a full one; and a greeting without a timestamp has fewer than eight bytes
-- behind it.
pub parse-wire :
    (m : RemoteMsg) (tail : List ℕ) → IsWire m tail → parse (wire m tail) ≡ some (some m)
unfolding parse_body wire
parse-wire (hello uuid name ts) tail (hu, hn, ht) =
    parse-header 1 _ ∙ parse_hello-wire uuid name ts tail hu hn ht
parse-wire (announce a) tail (hk, hh, hm, hr, hn) =
    parse-header 3 _ ∙ parse_announce-wire a tail hk hm hh hr hn
parse-wire (remove handle) tail h = parse-header 4 _ ∙ parse_remove-wire handle tail h
parse-wire (imu handle none samples) tail (h, hq, hs) =
    parse-header 5 _ ∙ >>=_step _ _ (parse_imu-wire handle samples tail h hs) refl
parse-wire (imu handle (some seq) samples) tail (h, hq, hs) =
    parse-header 9 _ ∙ parse_imu2-wire handle seq samples tail h hq hs
parse-wire (battery handle fraction charging) tail (h, hf) =
    parse-header 6 _ ∙ parse_battery-wire handle fraction charging tail h hf
parse-wire (button handle reset) tail (h, hr) =
    parse-header 7 _ ∙ parse_button-wire handle reset tail h hr

-- What the server sends is no message of a hub: a copy of it that comes back is dropped.
pub parse-encode :
    (ts : Option ℕ) (handle intensity : ℕ)
    → (parse (encode_hello_ack_echo ts) ≡ some none)
      × (parse (encode_rumble handle intensity) ≡ some none)
unfolding parse_body encode_hello_ack_echo encode_hello_ack encode_rumble
parse-encode none handle intensity =
    (parse-header 2 (version ∷ []), parse-header 8 (to_le 2 handle ++ to_le 4 intensity))
parse-encode (some ts) handle intensity =
    (parse-header 2 (version ∷ to_le 8 ts), parse-header 8 (to_le 2 handle ++ to_le 4 intensity))
