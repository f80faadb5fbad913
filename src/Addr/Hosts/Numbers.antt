-- ===== src/Addr/Hosts/Numbers.antt =====
-- Printing a number and reading it back, as libxcm/core/xcm_addr.c does with the port.
use xcm.Base.{
  ℕ, zero, suc, ◌+◌, ◌-◌, ◌*◌, ◌/◌, ◌%◌, ◌^◌, ◌≡◌, ◌≤◌, ◌<◌, refl, sym, ap, ◌∙◌, subst, [], ◌∷◌,
  ◌++◌, pos, Str, length, length-append, All, to_int, ltb, arith, Bool-cases, inl, inr,
}
use xcm.Addr.Hosts.{
  strtol_digits, skip_spaces, strtol_number, strtol_signed, strtol, ntohs, decimal, port_text,
}

abbrev pub IsDigits : Str → Type 0
IsDigits = All (λ c. (48 ≤ c) × (c ≤ 57))

strtol_digits-append :
    (m c : ℕ) (xs : Str)
    → IsDigits xs
    → 48 ≤ c
    → c ≤ 57
    → ((strtol_digits m xs).1 ≡ [])
      × (strtol_digits m (xs ++ (c ∷ [])) ≡ ((strtol_digits m xs).0 * 10 + (c - 48), []))
unfolding strtol_digits
strtol_digits-append m c [] h lo hi = (refl, ground arith)
strtol_digits-append m c (x ∷ xs) h lo hi =
    ground (arith, strtol_digits-append (m * 10 + (x - 48)) c xs h.1 lo hi, h.0)

IsDigits-append : (xs : Str) (c : ℕ) → IsDigits xs → 48 ≤ c → c ≤ 57 → IsDigits (xs ++ (c ∷ []))
IsDigits-append [] c h lo hi = ((lo, hi), tt)
IsDigits-append (x ∷ xs) c h lo hi = (h.0, IsDigits-append xs c h.1 lo hi)

-- The text is digits, which are read as the number.
pub record Reads (n : ℕ) (xs : Str) : Type 0 where
  pub digits : IsDigits xs
  pub some_digit : 0 < length xs
  pub value : strtol_digits 0 xs ≡ (n, [])

Reads-one : (n : ℕ) → n < 10 → Reads n ((n + 48) ∷ [])
unfolding strtol_digits
Reads-one n h = record {
  digits = ((omega arith, omega arith), tt);
  some_digit = omega arith;
  value = ground (arith, h);
}

Reads-more : (n : ℕ) (xs : Str) → Reads (n / 10) xs → Reads n (xs ++ ((n % 10 + 48) ∷ []))
Reads-more n xs r = record {
  digits = IsDigits-append xs (n % 10 + 48) r.digits (omega arith) (omega arith);
  some_digit = omega (arith, length-append {0} xs ((n % 10 + 48) ∷ []));
  value =
      let read : (strtol_digits 0 xs).0 ≡ n / 10 = ap (λ p. p.0) r.value in
      let sum : (strtol_digits 0 xs).0 * 10 + (n % 10 + 48 - 48) ≡ n = omega (arith, read) in
      (strtol_digits-append 0 (n % 10 + 48) xs r.digits (omega arith) (omega arith)).1
      ∙ ap (λ v. (v, [])) sum;
}

pub decimal_lem : (fuel n : ℕ) → n < 10 ^ fuel → 0 < fuel → Reads n (decimal fuel n)
unfolding decimal
decimal_lem zero n h some_fuel = elim some_fuel [ ]
decimal_lem (suc zero) n h some_fuel =
    let one : decimal 1 n ≡ (n + 48) ∷ [] = ground (arith, h) in
    subst (Reads n) (sym one) (Reads-one n h)
decimal_lem (suc (suc fuel)) n h some_fuel = elim (Bool-cases (ltb n 10)) [
  | inl small ↦
      let one : decimal (suc (suc fuel)) n ≡ (n + 48) ∷ [] = ground (arith, small) in
      subst (Reads n) (sym one) (Reads-one n (ground (arith, small)))
  | inr large ↦
      let more : decimal (suc (suc fuel)) n ≡ decimal (suc fuel) (n / 10) ++ ((n % 10 + 48) ∷ []) =
        rw (large, decimal) in
      let higher : Reads (n / 10) (decimal (suc fuel) (n / 10)) =
        decimal_lem (suc fuel) (n / 10) (omega arith) (omega arith) in
      subst (Reads n) (sym more) (Reads-more n (decimal (suc fuel) (n / 10)) higher)
]

length-decimal : (fuel n : ℕ) → length (decimal fuel n) ≤ fuel
unfolding decimal
length-decimal zero n = omega arith
length-decimal (suc fuel) n = ground (
  arith,
  length-decimal fuel (n / 10),
  length-append {0} (decimal fuel (n / 10)) ((n % 10 + 48) ∷ []),
)

-- strtol() of digits
strtol-digits : (n : ℕ) (xs : Str) → Reads n xs → n < 2 ^ 63 → strtol xs ≡ (pos n, [])
unfolding strtol strtol_signed strtol_number skip_spaces
strtol-digits n [] r small = absurd (omega (arith, r.some_digit))
strtol-digits n (x ∷ xs) r small = ground (arith, r.digits, r.value, small)

ntohs-ntohs : (port : ℕ) → port < 2 ^ 16 → (ntohs port < 2 ^ 16) × (ntohs (ntohs port) ≡ port)
unfolding ntohs
ntohs-ntohs port h = (omega arith, omega arith)

-- The text of a port is digits, and read back as the port's number in the byte order of the host.
pub port_text_lem :
    (port : ℕ)
    → port < 2 ^ 16
    → IsDigits (port_text port)
      × (strtol (port_text port) ≡ (pos (ntohs port), []))
      × (to_int (pos (ntohs port)) ≡ pos (ntohs port))
      × (ntohs port ≤ 65535)
      × (ntohs (ntohs port) ≡ port)
      × (length (port_text port) ≤ 5)
unfolding port_text
port_text_lem port h =
    let (small, back) = ntohs-ntohs port h in
    let reads : Reads (ntohs port) (decimal 5 (ntohs port)) =
      decimal_lem 5 (ntohs port) (omega arith) (omega arith) in
    (
      reads.digits,
      strtol-digits (ntohs port) (decimal 5 (ntohs port)) reads (omega arith),
      ground (arith, small),
      omega arith,
      back,
      length-decimal 5 (ntohs port),
    )
