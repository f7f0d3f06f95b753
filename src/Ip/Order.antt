-- ===== src/Ip/Order.antt =====
-- `operator==`, `operator<` and `operator>` of src/ipaddress.cpp as an order on addresses.
use ashe.Base.{
  ℕ, ◌+◌, ◌-◌, ◌*◌, ◌^◌, ◌<◌, ◌≡◌, refl, ap, ap₂, sym, ◌∙◌, true, false, not, ◌&&◌, List, [], ◌∷◌,
  arith, ltb, ◌==◌, length, IsBytes,
}
use ashe.Ip.{
  Family, unspec, inet, inet6, IpAddress, be_value, same_bytes, less_bytes, equal_as, ip_equal,
  ip_not_equal, less_as, ip_less, ip_greater,
}

-- The union holds 16 bytes.
pub record IsAddress (ip : IpAddress) : Type 0 where
  pub sixteen : length ip.raw ≡ 16
  pub bytes : IsBytes ip.raw

-- `memcmp` from the other side.
less_bytes-swap :
    (n : ℕ) (r s : List ℕ)
    → length r ≡ length s
    → (not (same_bytes n r s) && not (less_bytes n r s)) ≡ less_bytes n s r
unfolding same_bytes less_bytes
less_bytes-swap n [] [] h = refl
less_bytes-swap n [] (b ∷ s) h = absurd (omega arith)
less_bytes-swap n (a ∷ r) [] h = absurd (omega arith)
less_bytes-swap n (a ∷ r) (b ∷ s) h = ground (arith, less_bytes-swap (n - 1) r s (omega arith))

less_bytes_trans :
    (n : ℕ) (r s t : List ℕ)
    → length r ≡ length s
    → length s ≡ length t
    → less_bytes n r s ≡ true
    → less_bytes n s t ≡ true
    → less_bytes n r t ≡ true
unfolding less_bytes
less_bytes_trans n [] s t h k p q = cc
less_bytes_trans n (a ∷ r) [] t h k p q = cc
less_bytes_trans n (a ∷ r) (b ∷ s) [] h k p q = cc
less_bytes_trans n (a ∷ r) (b ∷ s) (c ∷ t) h k p q =
    let ih = less_bytes_trans (n - 1) r s t (omega arith) (omega arith) in ground (arith, ih)

less_bytes_irrefl : (n : ℕ) (r : List ℕ) → less_bytes n r r ≡ false
unfolding less_bytes
less_bytes_irrefl n [] = refl
less_bytes_irrefl n (a ∷ r) = ground (arith, less_bytes_irrefl (n - 1) r)

same_bytes_zero : (r s : List ℕ) → same_bytes 0 r s ≡ true
unfolding same_bytes
same_bytes_zero [] [] = refl
same_bytes_zero [] (b ∷ s) = refl
same_bytes_zero (a ∷ r) [] = refl
same_bytes_zero (a ∷ r) (b ∷ s) = refl

same_low :
    (c d c' d' : ℕ)
    → d < 2 ^ 8
    → d' < 2 ^ 8
    → (c == c' && (d == d' && true)) ≡ (c * 2 ^ 8 + d == c' * 2 ^ 8 + d')
same_low c d c' d' h k = ground arith

same_mid :
    (b x b' x' : ℕ)
    → x < 2 ^ 16
    → x' < 2 ^ 16
    → (b == b' && (x == x')) ≡ (b * 2 ^ 16 + x == b' * 2 ^ 16 + x')
same_mid b x b' x' h k = ground arith

same_high :
    (a x a' x' : ℕ)
    → x < 2 ^ 24
    → x' < 2 ^ 24
    → (a == a' && (x == x')) ≡ (a * 2 ^ 24 + x == a' * 2 ^ 24 + x')
same_high a x a' x' h k = ground arith

same_words :
    (a b c d a' b' c' d' : ℕ)
    → a < 256
    → b < 256
    → c < 256
    → d < 256
    → a' < 256
    → b' < 256
    → c' < 256
    → d' < 256
    → (a == a' && (b == b' && (c == c' && (d == d' && true))))
      ≡ (a * 2 ^ 24 + b * 2 ^ 16 + c * 2 ^ 8 + d == a' * 2 ^ 24 + b' * 2 ^ 16 + c' * 2 ^ 8 + d')
same_words a b c d a' b' c' d' ha hb hc hd ka kb kc kd =
    ap (λ r. a == a' && (b == b' && r)) (same_low c d c' d' hd kd)
    ∙ ap (λ r. a == a' && r)
        (same_mid b (c * 2 ^ 8 + d) b' (c' * 2 ^ 8 + d') (omega arith) (omega arith))
    ∙ same_high a (b * 2 ^ 16 + (c * 2 ^ 8 + d)) a' (b' * 2 ^ 16 + (c' * 2 ^ 8 + d')) (omega arith)
        (omega arith)
    ∙ ap₂ ◌==◌ (omega arith) (omega arith)

-- The first four bytes as one number.
same_bytes-be_value :
    (r s : List ℕ)
    → length r ≡ 16
    → length s ≡ 16
    → IsBytes r
    → IsBytes s
    → same_bytes 4 r s ≡ (be_value r 0 == be_value s 0)
unfolding same_bytes
same_bytes-be_value (a ∷ b ∷ c ∷ d ∷ r) (a' ∷ b' ∷ c' ∷ d' ∷ s) h k v w =
    rw (same_bytes_zero r s)
      (same_words a b c d a' b' c' d' v.0 v.1.0 v.1.1.0 v.1.1.1.0 w.0 w.1.0 w.1.1.0 w.1.1.1.0)
same_bytes-be_value _ _ h k v w = absurd (omega arith)

-- The other side of `less_as`, on the words of IPv4.
word_swap : (x y : ℕ) → (not (x == y) && not (ltb x y)) ≡ ltb y x
word_swap x y = ground arith

greater_as :
    (f g : Family) (r s : List ℕ)
    → length r ≡ 16
    → length s ≡ 16
    → IsBytes r
    → IsBytes s
    → (not (equal_as f g r s) && not (less_as f g r s)) ≡ less_as g f s r
unfolding equal_as less_as
greater_as unspec unspec r s h k v w = refl
greater_as unspec inet r s h k v w = refl
greater_as unspec inet6 r s h k v w = refl
greater_as inet unspec r s h k v w = refl
greater_as inet inet r s h k v w =
    rw (same_bytes-be_value r s h k v w) (word_swap (be_value r 0) (be_value s 0))
greater_as inet inet6 r s h k v w = refl
greater_as inet6 unspec r s h k v w = refl
greater_as inet6 inet r s h k v w = refl
greater_as inet6 inet6 r s h k v w = less_bytes-swap 16 r s (h ∙ sym k)

-- For addresses of 16 bytes, `operator>`, written as neither equal nor less, is `operator<` with
-- the sides exchanged.
ip_greater-ip_less : (a b : IpAddress) → IsAddress a → IsAddress b → ip_greater a b ≡ ip_less b a
unfolding ip_greater ip_less ip_not_equal ip_equal
ip_greater-ip_less a b v w =
    greater_as a.family b.family a.raw b.raw v.sixteen w.sixteen v.bytes w.bytes

less_as_trans :
    (f g h : Family) (r s t : List ℕ)
    → length r ≡ 16
    → length s ≡ 16
    → length t ≡ 16
    → less_as f g r s ≡ true
    → less_as g h s t ≡ true
    → less_as f h r t ≡ true
unfolding less_as
less_as_trans inet inet inet r s t i j k p q = ground arith
less_as_trans inet6 inet6 inet6 r s t i j k p q =
    less_bytes_trans 16 r s t (i ∙ sym j) (j ∙ sym k) p q
less_as_trans inet inet inet6 r s t i j k p q = refl
less_as_trans inet inet6 inet6 r s t i j k p q = refl
less_as_trans unspec unspec unspec r s t i j k p q = cc
less_as_trans unspec inet unspec r s t i j k p q = cc
less_as_trans unspec inet6 unspec r s t i j k p q = cc
less_as_trans unspec _ inet r s t i j k p q = refl
less_as_trans unspec _ inet6 r s t i j k p q = refl
less_as_trans _ _ _ r s t i j k p q = cc

less_as_irrefl : (f : Family) (r : List ℕ) → less_as f f r r ≡ false
unfolding less_as
less_as_irrefl unspec r = refl
less_as_irrefl inet r = ground arith
less_as_irrefl inet6 r = less_bytes_irrefl 16 r

-- On addresses of 16 bytes `operator<` is a strict order: none is less than itself, and it is
-- transitive.
ip_less_trans :
    (a b c : IpAddress)
    → IsAddress a
    → IsAddress b
    → IsAddress c
    → (ip_less a a ≡ false) × (ip_less a b ≡ true → ip_less b c ≡ true → ip_less a c ≡ true)
unfolding ip_less
ip_less_trans a b c u v w = (
  less_as_irrefl a.family a.raw,
  λ p q.
      less_as_trans a.family b.family c.family a.raw b.raw c.raw u.sixteen v.sixteen w.sixteen p q,
)
