-- ===== src/Net.antt =====
-- The part of Go's net/netip that the program uses: `Addr`, `AddrFromSlice` and `Addr.String`.
mod Tests
use notyetanotherenvoybacken.Common.{
  ℕ, zero, suc, ◌+◌, ◌*◌, ◌/◌, ◌%◌, ◌-◌, String, ◌&&◌, ◌||◌, Option, none, some, List, [], ◌∷◌, map,
  decimal, join, sprintf, ltb, leb, length, ◌==◌, if◌then◌else◌, nat_eq,
}

-- The bytes of an address: 4 or 16 of them.
pub record Addr : Type 0 where
  pub bytes : List ℕ

-- `netip.AddrFromSlice`
unfoldable pub addr_from_slice : List ℕ → Option Addr
addr_from_slice bytes =
    if length bytes == 4 || length bytes == 16 then some (record { bytes = bytes }) else none

hex_digit : ℕ → String
hex_digit d =
    if ltb d 10
    then decimal d
    else if d == 10
    then "a"
    else if d == 11
    then "b"
    else if d == 12
    then "c"
    else if d == 13
    then "d"
    else if d == 14
    then "e"
    else "f"

-- a group of sixteen bits, in hexadecimal with no leading zeros
hex_rounds : ℕ → ℕ → String
hex_rounds zero n = hex_digit n
hex_rounds (suc f) n =
    let rest = sprintf (hex_rounds f (n / 16) ∷ hex_digit (n % 16) ∷ []) in
    if ltb n 16 then hex_digit n else rest

groups : List ℕ → List ℕ
groups (hi ∷ lo ∷ rest) = (hi * 256 + lo) ∷ groups rest
groups _ = []

-- how many zeros stand at the front
zeros : List ℕ → ℕ
zeros [] = 0
zeros (g ∷ gs) = if g == 0 then suc (zeros gs) else 0

-- the first of the longest runs of at least two zeros, as its start and its end
longest_run : ℕ → List ℕ → ℕ × ℕ → ℕ × ℕ
longest_run i [] (start, end) = (start, end)
longest_run i (g ∷ gs) (start, end) = longest_run (suc i) gs (
    if leb 2 (zeros (g ∷ gs)) && ltb (end - start) (zeros (g ∷ gs))
    then (i, i + zeros (g ∷ gs))
    else (start, end))

-- the groups with `::` in place of the run, and `:` between the others
write_groups : ℕ → ℕ × ℕ → List ℕ → String
write_groups i run [] = ""
write_groups i (start, end) (g ∷ gs) =
    let rest = write_groups (suc i) (start, end) gs in
    if i == start && ltb start end
    then sprintf ("::" ∷ rest ∷ [])
    else if ltb start i && ltb i end
    then rest
    else if i == 0 || (i == end && ltb start end)
    then sprintf (hex_rounds 3 g ∷ rest ∷ [])
    else sprintf (":" ∷ hex_rounds 3 g ∷ rest ∷ [])

ipv6_string : List ℕ → String
ipv6_string bytes = write_groups 0 (longest_run 0 (groups bytes) (0, 0)) (groups bytes)

dotted : List ℕ → String
dotted bytes = join "." (map decimal bytes)

-- an IPv4 address in IPv6 form shows as such
mapped_string : List ℕ → String
mapped_string
      (zero ∷ zero ∷ zero ∷ zero ∷ zero ∷ zero ∷ zero ∷ zero ∷ zero ∷ zero ∷ x ∷ y ∷ a ∷ b ∷ c ∷ d
        ∷ []) =
    if x == 255 && y == 255
    then sprintf ("::ffff:" ∷ dotted (a ∷ b ∷ c ∷ d ∷ []) ∷ [])
    else ipv6_string (0 ∷ 0 ∷ 0 ∷ 0 ∷ 0 ∷ 0 ∷ 0 ∷ 0 ∷ 0 ∷ 0 ∷ x ∷ y ∷ a ∷ b ∷ c ∷ d ∷ [])
mapped_string bytes = ipv6_string bytes

-- `Addr.String`
unfoldable pub addr_string : Addr → String
unfolding hex_digit hex_rounds groups zeros longest_run write_groups ipv6_string dotted
    mapped_string
addr_string a = if length a.bytes == 4 then dotted a.bytes else mapped_string a.bytes
