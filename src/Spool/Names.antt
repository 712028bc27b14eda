-- ===== src/Spool/Names.antt =====
-- The names of spool files: numerals of twenty digits, whose order as texts is that of the numbers.
use heliograph_relay.Common.{
  ℕ, zero, suc, ◌+◌, ◌-◌, ◌*◌, ◌<◌, ◌≡◌, refl, sym, ap, ◌∙◌, ◌≢◌, true, false, some, [], ◌∷◌, ◌++◌,
  Text, same, has_prefix, decimal, length, length-append, All, All-append, arith, is_empty,
}
use heliograph_relay.Common.Decimal.{
  value_from, value-decimal, Digit, decimal-Digit, length-decimal,
}
use heliograph_relay.Spool.Disk.{zeros, padded, spool_name, spool_ext, spool_tmp_pre}
use heliograph_relay.Spool.Open.{strip_suffix, scan_digits, scan_number, skip_space, spool_number}
use heliograph_relay.Spool.Load.{text_le, is_tmp, has_ext}

zeros-Digit : (n : ℕ) → All Digit (zeros n)
unfolding zeros
zeros-Digit zero = tt
zeros-Digit (suc n) = ((omega arith, omega arith), zeros-Digit n)

length-zeros : (n : ℕ) → length (zeros n) ≡ n
unfolding zeros
length-zeros zero = refl
length-zeros (suc n) = omega (arith, length-zeros n)

value-zeros : (n : ℕ) (t : Text) → value_from 0 (zeros n ++ t) ≡ value_from 0 t
unfolding zeros value_from
value-zeros zero t = refl
value-zeros (suc n) t = value-zeros n t

-- A number that fits the twenty digits.
abbrev pub Fits : ℕ → Type 0
Fits n = n < 100000000000000000000

padded-Digit : (n : ℕ) → All Digit (padded n)
unfolding padded
padded-Digit n =
    All-append Digit (zeros (20 - length (decimal n))) (decimal n) (zeros-Digit _) (decimal-Digit n)

value-padded : (n : ℕ) → value_from 0 (padded n) ≡ n
unfolding padded
value-padded n = value-zeros (20 - length (decimal n)) (decimal n) ∙ value-decimal n

length-padded : (n : ℕ) → Fits n → length (padded n) ≡ 20
unfolding padded
length-padded n h =
    length-append (zeros (20 - length (decimal n))) (decimal n)
    ∙ omega (arith, length-zeros (20 - length (decimal n)), length-decimal 19 n h)

-- Of two numerals of one length the greater stands for more, whatever was read before.
value-lt :
    (p q : ℕ) (xs ys : Text)
    → length xs ≡ length ys
    → All Digit xs
    → All Digit ys
    → p < q
    → value_from p xs < value_from q ys
unfolding value_from
value-lt p q [] [] e h k l = l
value-lt p q [] (y ∷ ys) e h k l = absurd (omega arith)
value-lt p q (x ∷ xs) [] e h k l = absurd (omega arith)
value-lt p q (x ∷ xs) (y ∷ ys) e h k l =
    value-lt (p * 10 + (x - 48)) (q * 10 + (y - 48)) xs ys (omega arith) h.1 k.1 (omega arith)

text_le-value :
    (p : ℕ) (xs ys end : Text)
    → length xs ≡ length ys
    → All Digit xs
    → All Digit ys
    → value_from p xs < value_from p ys
    → text_le (xs ++ end) (ys ++ end) ≡ true
unfolding text_le value_from
text_le-value p [] [] end e h k l = absurd (omega arith)
text_le-value p [] (y ∷ ys) end e h k l = absurd (omega arith)
text_le-value p (x ∷ xs) [] end e h k l = absurd (omega arith)
text_le-value p (x ∷ xs) (y ∷ ys) end e h k l = ground (
  arith,
  value-lt (p * 10 + (y - 48)) (p * 10 + (x - 48)) ys xs,
  text_le-value (p * 10 + (x - 48)) xs ys end,
)

pub text_le-spool_name : (a b : ℕ) → a < b → Fits b → text_le (spool_name a) (spool_name b) ≡ true
unfolding spool_name
text_le-spool_name a b l h =
    text_le-value 0 (padded a) (padded b) spool_ext
      (length-padded a (omega arith) ∙ sym (length-padded b h)) (padded-Digit a) (padded-Digit b)
      (rw (value-padded a, value-padded b) l)

scan_digits-value : (acc : ℕ) (xs : Text) → All Digit xs → scan_digits acc xs ≡ value_from acc xs
unfolding scan_digits value_from
scan_digits-value acc [] h = refl
scan_digits-value acc (x ∷ xs) h = ground (arith, scan_digits-value (acc * 10 + (x - 48)) xs h.1)

scan_number-digits :
    (xs : Text)
    → All Digit xs
    → length xs ≡ 20
    → value_from 0 xs < 18446744073709551616
    → scan_number (skip_space xs) ≡ some (value_from 0 xs)
unfolding scan_number skip_space
scan_number-digits [] h e l = absurd (omega arith)
scan_number-digits (x ∷ xs) h e l = ground (arith, scan_digits-value 0 (x ∷ xs) h)

strip_suffix-digits :
    (xs : Text) → All Digit xs → strip_suffix spool_ext (xs ++ spool_ext) ≡ some xs
unfolding strip_suffix same
strip_suffix-digits [] h = refl
strip_suffix-digits (x ∷ xs) h = ground (arith, strip_suffix-digits xs h.1)

-- The number is read back from the name.
pub spool_number-spool_name :
    (n : ℕ) → n < 18446744073709551616 → spool_number (spool_name n) ≡ some n
unfolding spool_number spool_name
spool_number-spool_name n h =
    rw (spool_number, strip_suffix-digits (padded n) (padded-Digit n))
      (scan_number-digits (padded n) (padded-Digit n) (length-padded n (omega arith))
          (rw (value-padded n) h)
        ∙ ap some (value-padded n))

pub has_ext-spool_name : (n : ℕ) → has_ext (spool_name n) ≡ true
unfolding spool_name
has_ext-spool_name n = rw (has_ext, strip_suffix-digits (padded n) (padded-Digit n))

not_tmp-digits :
    (xs : Text) → All Digit xs → length xs ≡ 20 → has_prefix spool_tmp_pre (xs ++ spool_ext) ≡ false
unfolding has_prefix
not_tmp-digits [] h e = absurd (omega arith)
not_tmp-digits (x ∷ xs) h e = ground arith

pub not_tmp-spool_name : (n : ℕ) → Fits n → is_tmp (spool_name n) ≡ false
unfolding spool_name
not_tmp-spool_name n h = not_tmp-digits (padded n) (padded-Digit n) (length-padded n h)

nonempty-append : (xs ys : Text) → is_empty ys ≡ false → is_empty (xs ++ ys) ≡ false
nonempty-append [] ys h = h
nonempty-append (x ∷ xs) ys h = refl

pub nonempty-spool_name : (n : ℕ) → is_empty (spool_name n) ≡ false
unfolding spool_name
nonempty-spool_name n = nonempty-append (padded n) spool_ext refl

-- Numbers below 2^64 have different names.
pub spool_name-ne : (a b : ℕ) → a < b → b < 18446744073709551616 → spool_name a ≢ spool_name b
spool_name-ne a b l h e =
    let p : some a ≡ some b =
      sym (spool_number-spool_name a (omega arith))
      ∙ ap spool_number e
      ∙ spool_number-spool_name b h in
    ground (arith, p)
