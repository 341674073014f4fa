-- ===== src/Protocol/Crypto/Framing.antt =====
-- The length-prefixed encoding under every hash of the protocol (protocol/crypto.py `prf`,
-- protocol/signatures.py): no two lists of parts share it.
use native.Mathlib.Nat.{pow-suc}
use subnet.Base.{
  ℕ, zero, suc, ◌*◌, ◌/◌, ◌%◌, ◌^◌, ◌<◌, List, [], ◌∷◌, ◌++◌, length, length-append, ◌≡◌, ◌≢◌, refl,
  ap, ap₂, sym, ◌∙◌, arith, All,
}
use subnet.Protocol.Bytes.{Bytes, to_bytes}
use subnet.Protocol.Crypto.{frame}

-- Where two texts agree and their first parts are equally long, the parts agree.
pub append_split :
    {A : Type 0} (a b : List A) {x y : List A}
    → length a ≡ length b
    → a ++ x ≡ b ++ y
    → (a ≡ b) × (x ≡ y)
append_split [] [] len e = (refl, e)
append_split [] (v ∷ b) len e = absurd (omega arith)
append_split (u ∷ a) [] len e = absurd (omega arith)
append_split (u ∷ a) (v ∷ b) {x} {y} len e =
    let head : u ≡ v = cc in
    let tail : a ++ x ≡ b ++ y = cc in
    let (same, rest) = append_split a b (omega arith) tail in (ap₂ ◌∷◌ head same, rest)

pub length-to_bytes : (k n : ℕ) → length (to_bytes k n) ≡ k
unfolding to_bytes
length-to_bytes zero n = refl
length-to_bytes (suc k) n =
    omega
      (arith, length-append (to_bytes k (n / 256)) ((n % 256) ∷ []), length-to_bytes k (n / 256))

-- A number below 256 ^ k is determined by its `k` bytes.
pub to_bytes_injective :
    (k n m : ℕ) → n < 256 ^ k → m < 256 ^ k → to_bytes k n ≡ to_bytes k m → n ≡ m
unfolding to_bytes
to_bytes_injective zero n m p q e = omega arith
to_bytes_injective (suc k) n m p q e =
    let (high, low) =
      append_split (to_bytes k (n / 256)) (to_bytes k (m / 256))
        (length-to_bytes k (n / 256) ∙ sym (length-to_bytes k (m / 256))) e in
    let pn : n < 256 ^ k * 256 = rw pow-suc at p in
    let pm : m < 256 ^ k * 256 = rw pow-suc at q in
    let h : n / 256 ≡ m / 256 =
      to_bytes_injective k (n / 256) (m / 256) (omega arith) (omega arith) high in
    let l : n % 256 ≡ m % 256 = cc in omega arith

framed-ne-nil : (part rest : Bytes) → to_bytes 4 (length part) ++ (part ++ rest) ≢ []
framed-ne-nil part rest e = omega (
  arith,
  ap length e,
  length-append (to_bytes 4 (length part)) (part ++ rest),
  length-to_bytes 4 (length part),
)

abbrev pub IsShort : Bytes → Type 0
IsShort part = length part < 2 ^ 32

-- Lists of parts, each shorter than 2 ^ 32 bytes, with the same encoding are equal: no part can
-- reach into the next one.
pub frame_injective :
    (ps qs : List Bytes) → All IsShort ps → All IsShort qs → frame ps ≡ frame qs → ps ≡ qs
unfolding frame
frame_injective [] [] sp sq e = refl
frame_injective [] (q ∷ qs) sp sq e = absurd (framed-ne-nil q (frame qs) (sym e))
frame_injective (p ∷ ps) [] sp sq e = absurd (framed-ne-nil p (frame ps) e)
frame_injective (p ∷ ps) (q ∷ qs) sp sq e =
    let (sizes, rest) =
      append_split (to_bytes 4 (length p)) (to_bytes 4 (length q))
        (length-to_bytes 4 (length p) ∙ sym (length-to_bytes 4 (length q))) e in
    let len = to_bytes_injective 4 (length p) (length q) sp.0 sq.0 sizes in
    let (same, more) = append_split p q len rest in
    ap₂ ◌∷◌ same (frame_injective ps qs sp.1 sq.1 more)
