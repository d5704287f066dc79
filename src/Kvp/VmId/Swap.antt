-- ===== src/Kvp/VmId/Swap.antt =====
-- The swap of a UUID's bytes.
use azure_init.Prelude.{ℕ, ◌<◌, ◌≡◌, ap, ◌∙◌, [], ◌∷◌, ◌++◌, arith, Bytes, All, length, take, drop}
use mathlib.Core.Path.{ap₂}
use mathlib.Core.List.{reverse}
use azure_init.Kvp.VmId.{
  Endian, little, big, from_be_bytes, to_le_bytes, to_ne_bytes, swap_uuid_to_little_endian,
}

-- Each number is a byte.
abbrev pub AreBytes : Bytes → Type 0
AreBytes = All (λ b. b < 256)

-- On a little-endian machine each of the three fields is reversed, on the other kind none is.
abbrev pub reversed_fields : Endian → Bytes → Bytes
reversed_fields little (a ∷ b ∷ c ∷ d ∷ e ∷ f ∷ g ∷ h ∷ rest) = d ∷ c ∷ b ∷ a ∷ f ∷ e ∷ h ∷ g ∷ rest
reversed_fields _ uuid = uuid

four_bytes :
    (a b c d : ℕ)
    → a < 256
    → b < 256
    → c < 256
    → d < 256
    → to_le_bytes 4 (from_be_bytes 0 (a ∷ b ∷ c ∷ d ∷ [])) ≡ d ∷ c ∷ b ∷ a ∷ []
unfolding to_le_bytes from_be_bytes
four_bytes a b c d ha hb hc hd = ground arith

two_bytes :
    (a b : ℕ) → a < 256 → b < 256 → to_le_bytes 2 (from_be_bytes 0 (a ∷ b ∷ [])) ≡ b ∷ a ∷ []
unfolding to_le_bytes from_be_bytes
two_bytes a b ha hb = ground arith

swap_eight :
    (native : Endian) (a b c d e f g h : ℕ) (rest : Bytes)
    → AreBytes (a ∷ b ∷ c ∷ d ∷ e ∷ f ∷ g ∷ h ∷ [])
    → swap_uuid_to_little_endian native (a ∷ b ∷ c ∷ d ∷ e ∷ f ∷ g ∷ h ∷ rest)
      ≡ reversed_fields native (a ∷ b ∷ c ∷ d ∷ e ∷ f ∷ g ∷ h ∷ rest)
unfolding swap_uuid_to_little_endian to_ne_bytes take drop
swap_eight little a b c d e f g h rest (pa, (pb, (pc, (pd, (pe, (pf, (pg, (ph, _)))))))) =
    ap (λ t. t ++ rest)
      (ap₂ (λ s t. s ++ t)
        (ap₂ (λ s t. s ++ t) (four_bytes a b c d pa pb pc pd) (two_bytes e f pe pf))
        (two_bytes g h pg ph))
swap_eight big a b c d e f g h rest (pa, (pb, (pc, (pd, (pe, (pf, (pg, (ph, _)))))))) =
    ap (λ t. t ++ rest)
      (ap₂ (λ s t. s ++ t)
        (ap₂ (λ s t. reverse s ++ reverse t) (four_bytes a b c d pa pb pc pd) (two_bytes e f pe pf))
        (ap reverse (two_bytes g h pg ph)))

-- The swap of a UUID reverses its first three fields on a little-endian machine, changes nothing on
-- the other kind, and is undone by a second swap; the bytes behind the eighth stay.
pub swap_reverses :
    (native : Endian) (uuid : Bytes)
    → length uuid ≡ 16
    → AreBytes uuid
    → (swap_uuid_to_little_endian native uuid ≡ reversed_fields native uuid)
      × (swap_uuid_to_little_endian native (swap_uuid_to_little_endian native uuid) ≡ uuid)
swap_reverses native (a ∷ b ∷ c ∷ d ∷ e ∷ f ∷ g ∷ h ∷ rest) n
      (pa, (pb, (pc, (pd, (pe, (pf, (pg, (ph, _)))))))) =
    let once =
      swap_eight native a b c d e f g h rest (pa, (pb, (pc, (pd, (pe, (pf, (pg, (ph, tt)))))))) in
    (once, ap (swap_uuid_to_little_endian native) once ∙ again native)
  where
    again :
        (n : Endian)
        → swap_uuid_to_little_endian n (reversed_fields n (a ∷ b ∷ c ∷ d ∷ e ∷ f ∷ g ∷ h ∷ rest))
          ≡ a ∷ b ∷ c ∷ d ∷ e ∷ f ∷ g ∷ h ∷ rest
    again little =
        swap_eight little d c b a f e h g rest (pd, (pc, (pb, (pa, (pf, (pe, (ph, (pg, tt))))))))
    again big =
        swap_eight big a b c d e f g h rest (pa, (pb, (pc, (pd, (pe, (pf, (pg, (ph, tt))))))))
swap_reverses native _ n bytes = absurd (omega arith)

fields-AreBytes :
    (native : Endian) (uuid : Bytes)
    → length uuid ≡ 16
    → AreBytes uuid
    → (length (reversed_fields native uuid) ≡ 16) × AreBytes (reversed_fields native uuid)
fields-AreBytes little (a ∷ b ∷ c ∷ d ∷ e ∷ f ∷ g ∷ h ∷ rest) n
      (pa, (pb, (pc, (pd, (pe, (pf, (pg, (ph, others)))))))) =
    (n, (pd, (pc, (pb, (pa, (pf, (pe, (ph, (pg, others)))))))))
fields-AreBytes big (a ∷ b ∷ c ∷ d ∷ e ∷ f ∷ g ∷ h ∷ rest) n bytes = (n, bytes)
fields-AreBytes native _ n bytes = absurd (omega arith)

-- Swapped, 16 bytes are 16 bytes.
pub swap-AreBytes :
    (native : Endian) (uuid : Bytes)
    → length uuid ≡ 16
    → AreBytes uuid
    → (length (swap_uuid_to_little_endian native uuid) ≡ 16)
      × AreBytes (swap_uuid_to_little_endian native uuid)
swap-AreBytes native uuid n bytes =
    rw (swap_reverses native uuid n bytes).0 (fields-AreBytes native uuid n bytes)
