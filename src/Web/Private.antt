-- ===== src/Web/Private.antt =====
-- Which addresses are private.
use agent_operator.Prelude.{
  ℕ, ◌*◌, ◌^◌, ◌≤◌, ◌<◌, ◌≡◌, refl, ◌⊎◌, inl, inr, arith, Bool-cases, true, false, Option, none,
  some, List, [], ◌∷◌, All, any,
}
use agent_operator.Web.{IpAddress, ipv4, ipv6, is_in, is_private, is_blocked_address}

abbrev IsBetween : ℕ → ℕ → ℕ → Type 0
IsBetween low high n = (low ≤ n) × (n < high)

-- 10.0.0.0/8, 127.0.0.0/8, 169.254.0.0/16, 172.16.0.0/12, 192.168.0.0/16, fc00::/7 and ::1.
abbrev pub IsPrivate : IpAddress → Type 0
IsPrivate (ipv4 n) =
    IsBetween 167772160 184549376 n
    ⊎ (IsBetween 2130706432 2147483648 n
        ⊎ (IsBetween 2851995648 2852061184 n
            ⊎ (IsBetween 2886729728 2887778304 n ⊎ IsBetween 3232235520 3232301056 n)))
IsPrivate (ipv6 n) = (n ≡ 1) ⊎ IsBetween (126 * 2 ^ 121) (127 * 2 ^ 121) n

is_private-IsPrivate : (ip : IpAddress) → is_private ip ≡ true → IsPrivate ip
unfolding is_private is_in
is_private-IsPrivate (ipv4 n) h = ground (arith, h)
is_private-IsPrivate (ipv6 n) h = ground (arith, h)

IsPrivate-is_private : (ip : IpAddress) → IsPrivate ip → is_private ip ≡ true
unfolding is_private is_in
IsPrivate-is_private (ipv4 n) h = ground (arith, h)
IsPrivate-is_private (ipv6 n) h = ground (arith, h)

-- An address that the resolver gives and that parses is not private.
abbrev pub IsPublic : Option IpAddress → Type 0
IsPublic none = Unit
IsPublic (some ip) = ¬ (IsPrivate ip)

pub All-IsPublic :
    (infos : List (Option IpAddress)) → any is_blocked_address infos ≡ false → All IsPublic infos
All-IsPublic [] h = tt
All-IsPublic (none ∷ infos) h = (tt, All-IsPublic infos h)
All-IsPublic (some ip ∷ infos) h = (
  λ within. absurd (ground (arith, h, IsPrivate-is_private ip within)),
  All-IsPublic infos (ground (arith, h)),
)

pub none_blocked :
    (infos : List (Option IpAddress)) → All IsPublic infos → any is_blocked_address infos ≡ false
none_blocked [] h = refl
none_blocked (none ∷ infos) h = none_blocked infos h.1
none_blocked (some ip ∷ infos) h = elim (Bool-cases (is_private ip)) [
  | inl within ↦ absurd (h.0 (is_private-IsPrivate ip within))
  | inr other ↦ rw other (none_blocked infos h.1)
]
