-- ===== src/Std/IpAddr.antt =====
-- `std::net::IpAddr`: its parser, and the display of an IPv6 address.
use fips_shield.Base.{
  ℕ, zero, suc, ◌+◌, ◌-◌, ◌*◌, ◌/◌, ◌%◌, ◌≡◌, refl, Bool, true, false, ◌&&◌, Option, none, some,
  List, [], ◌∷◌, ◌++◌, ltb, ◌==◌, if◌then◌else◌, length,
}
use fips_shield.Std.Text.{text_eq, Text, codes}
use fips_shield.Std.Number.{to_digit}

-- Addresses by their octets.
pub data IpAddr : Type 0 where
  v4 : List ℕ → IpAddr
  v6 : List ℕ → IpAddr

-- A parser takes from the front of the text, or fails and takes nothing.
abbrev Parser : Type 0 → Type 0
Parser A = Text → Option (A × Text)

read_char : ℕ → Parser (Unit {0})
read_char c [] = none
read_char c (d ∷ s) = if c == d then some (tt, s) else none

-- Digits up to `left` more; the number so far and whether a digit was read.
number_loop : ℕ → ℕ → ℕ → ℕ → Bool → Parser ℕ
unfolding to_digit
number_loop radix max zero n seen s = if seen then some (n, s) else none
number_loop radix max (suc left) n seen [] = if seen then some (n, []) else none
number_loop radix max (suc left) n seen (c ∷ s) = elim (to_digit radix c) [
  | none ↦ if seen then some (n, c ∷ s) else none
  | some d ↦ elim (ltb max (n * radix + d)) [
    | true ↦ none
    | false ↦ number_loop radix max left (n * radix + d) true s
  ]
]

starts_with_digit : ℕ → Text → Bool
starts_with_digit z [] = false
starts_with_digit z (c ∷ s) = c == z

-- One digit more than `count` fails.
read_number : ℕ → ℕ → ℕ → Parser ℕ
unfolding number_loop
read_number radix max count s = elim (number_loop radix max (suc count) 0 false s) [
  | none ↦ none
  | some (n, rest) ↦ if ltb count (length s - length rest) then none else some (n, rest)
]

-- A leading zero before another digit fails.
read_octet : Parser ℕ
unfolding read_number starts_with_digit
read_octet s = elim (read_number 10 255 3 s) [
  | none ↦ none
  | some (n, rest) ↦
      if starts_with_digit b'0' s && ltb 1 (length s - length rest) then none else some (n, rest)
]

dot_octet : Parser ℕ
unfolding read_char read_octet
dot_octet s = elim (read_char b'.' s) [ none ↦ none | some (u, r) ↦ read_octet r ]

read_ipv4 : Parser (List ℕ)
unfolding dot_octet read_octet
read_ipv4 s = elim (read_octet s) [
  | none ↦ none
  | some (a, s1) ↦ elim (dot_octet s1) [
    | none ↦ none
    | some (b, s2) ↦ elim (dot_octet s2) [
      | none ↦ none
      | some (c, s3) ↦ elim (dot_octet s3) [
        | none ↦ none
        | some (d, s4) ↦ some (a ∷ b ∷ c ∷ d ∷ [], s4)
      ]
    ]
  ]
]

-- The separator stands before every group but the first.
after_colon : Bool → Text → Option Text
unfolding read_char
after_colon true s = some s
after_colon false s = elim (read_char b':' s) [ none ↦ none | some (u, r) ↦ some r ]

read_group : Bool → Parser ℕ
unfolding after_colon read_number
read_group first s = elim (after_colon first s) [ none ↦ none | some r ↦ read_number 16 0xffff 4 r ]

embedded_v4 : Bool → Parser (List ℕ)
unfolding after_colon read_ipv4
embedded_v4 first s = elim (after_colon first s) [ none ↦ none | some r ↦ read_ipv4 r ]

-- The octets of the groups read, whether an IPv4 address ended them, and the rest. `left` groups
-- may still come, and an IPv4 address takes two.
read_groups : ℕ → Bool → Text → List ℕ × Bool × Text
unfolding read_group embedded_v4
read_groups zero first s = ([], false, s)
read_groups (suc left) first s =
    let group : List ℕ × Bool × Text = elim (read_group first s) [
      | none ↦ ([], false, s)
      | some (g, r) ↦
          let (more, quad, rest) = read_groups left false r in
          ((g / 256) ∷ (g % 256) ∷ more, quad, rest)
    ] in
    if left == 0
    then group
    else elim (embedded_v4 first s) [ none ↦ group | some (octets, r) ↦ (octets, true, r) ]

zeros : ℕ → List ℕ
zeros zero = []
zeros (suc n) = 0 ∷ zeros n

-- The groups behind `::`, and the zeros between.
fill : List ℕ → Parser (List ℕ)
unfolding read_groups zeros
fill head s =
    let (tail, _, rest) = read_groups (8 - (length head / 2 + 1)) true s in
    some (head ++ (zeros (16 - length head - length tail) ++ tail), rest)

-- What follows the first groups.
finish_ipv6 : List ℕ → Bool → Parser (List ℕ)
unfolding read_char fill
finish_ipv6 head quad s =
    if length head / 2 == 8
    then some (head, s)
    else if quad
    then none
    else elim (read_char b':' s) [
      | none ↦ none
      | some (u, r) ↦ elim (read_char b':' r) [ none ↦ none | some (w, t) ↦ fill head t ]
    ]

read_ipv6 : Parser (List ℕ)
unfolding read_groups finish_ipv6
read_ipv6 s = let (head, quad, r) = read_groups 8 true s in finish_ipv6 head quad r

whole : Option (List ℕ × Text) → Option (List ℕ)
whole none = none
whole (some (a, [])) = some a
whole (some (a, c ∷ s)) = none

-- `s.parse::<IpAddr>().ok()`
unfoldable pub parse_ip : Text → Option IpAddr
unfolding read_ipv4 read_ipv6 whole
parse_ip s = elim (read_ipv4 s) [
  | some (a, rest) ↦ elim (whole (some (a, rest))) [ none ↦ none | some o ↦ some (v4 o) ]
  | none ↦ elim (whole (read_ipv6 s)) [ none ↦ none | some o ↦ some (v6 o) ]
]

-- A colon and a port, with nothing behind it.
read_port : Text → Option ℕ
unfolding read_char number_loop
read_port s = elim (read_char b':' s) [
  | none ↦ none
  | some (u, r) ↦ elim (number_loop 10 0xffff (length r) 0 false r) [
    | none ↦ none
    | some (port, rest) ↦ elim rest [ [] ↦ some port | c ∷ t ↦ none ]
  ]
]

-- `%` and a scope, if there is one, up to the closing bracket
skip_scope : Text → Option Text
unfolding read_char number_loop
skip_scope s = elim (read_char b'%' s) [
  | none ↦ elim (read_char b']' s) [ none ↦ none | some (u, r) ↦ some r ]
  | some (u, r) ↦ elim (number_loop 10 0xffffffff (length r) 0 false r) [
    | none ↦ none
    | some (scope, rest) ↦ elim (read_char b']' rest) [ none ↦ none | some (w, t) ↦ some t ]
  ]
]

read_socket_v6 : Text → Option (IpAddr × ℕ)
unfolding read_char read_ipv6 skip_scope read_port
read_socket_v6 s = elim (read_char b'[' s) [
  | none ↦ none
  | some (u, r) ↦ elim (read_ipv6 r) [
    | none ↦ none
    | some (o, r1) ↦ elim (skip_scope r1) [
      | none ↦ none
      | some r2 ↦ elim (read_port r2) [ none ↦ none | some port ↦ some (v6 o, port) ]
    ]
  ]
]

-- `s.parse::<SocketAddr>().ok()`
unfoldable pub parse_socket : Text → Option (IpAddr × ℕ)
unfolding read_ipv4 read_port read_socket_v6
parse_socket s = elim (read_ipv4 s) [
  | none ↦ read_socket_v6 s
  | some (o, r) ↦ elim (read_port r) [ none ↦ none | some port ↦ some (v4 o, port) ]
]

-- `is_loopback`
unfoldable pub is_loopback : IpAddr → Bool
is_loopback (v4 []) = false
is_loopback (v4 (a ∷ o)) = a == 127
is_loopback (v6 o) = text_eq o (zeros_15 ++ (1 ∷ []))
  where
    zeros_15 : List ℕ
    zeros_15 = 0 ∷ 0 ∷ 0 ∷ 0 ∷ 0 ∷ 0 ∷ 0 ∷ 0 ∷ 0 ∷ 0 ∷ 0 ∷ 0 ∷ 0 ∷ 0 ∷ 0 ∷ []

parses :
    (parse_ip (codes "fd00::1")
      ≡ some (v6 (0xfd ∷ 0 ∷ 0 ∷ 0 ∷ 0 ∷ 0 ∷ 0 ∷ 0 ∷ 0 ∷ 0 ∷ 0 ∷ 0 ∷ 0 ∷ 0 ∷ 0 ∷ 1 ∷ [])))
    × (parse_ip (codes "10.0.0.7") ≡ some (v4 (10 ∷ 0 ∷ 0 ∷ 7 ∷ [])))
    × (parse_ip (codes "::ffff:1.2.3.4")
        ≡ some (v6 (0 ∷ 0 ∷ 0 ∷ 0 ∷ 0 ∷ 0 ∷ 0 ∷ 0 ∷ 0 ∷ 0 ∷ 0xff ∷ 0xff ∷ 1 ∷ 2 ∷ 3 ∷ 4 ∷ [])))
    × (parse_ip (codes "fd00::1x") ≡ none)
    × (parse_ip (codes "1.2.3") ≡ none)
    × (parse_ip (codes "01.2.3.4") ≡ none)
unfolding parse_ip
parses = (refl, refl, refl, refl, refl, refl)

sockets :
    (parse_socket (codes "127.0.0.1:8088") ≡ some (v4 (127 ∷ 0 ∷ 0 ∷ 1 ∷ []), 8088))
    × (parse_socket (codes "[::1]:80")
        ≡ some (v6 (0 ∷ 0 ∷ 0 ∷ 0 ∷ 0 ∷ 0 ∷ 0 ∷ 0 ∷ 0 ∷ 0 ∷ 0 ∷ 0 ∷ 0 ∷ 0 ∷ 0 ∷ 1 ∷ []), 80))
    × (parse_socket (codes "127.0.0.1") ≡ none)
unfolding parse_socket
sockets = (refl, refl, refl)
