-- ===== src/ProtoCap/Tlv.antt =====
-- bebop2/proto-cap/src/tlv.rs: the canonical signing input of every signed struct.
pub mod Laws
use open_bebop.Prelude.{ℕ, ◌+◌, ◌%◌, ◌^◌, Bool, List, [], ◌∷◌, ◌++◌, leb, length, get_or}
use open_bebop.Prelude.Bytes.{Bytes, le_bytes}
use open_bebop.Prelude.Sort.{sort}

-- A field is its id and its value, both byte slices.
abbrev pub Field : Type 0
Field = Bytes × Bytes

-- `fields[i].0.first().copied().unwrap_or(0)`, the key of the stable sort.
abbrev pub field_key : Field → ℕ
field_key f = get_or f.0 0 0

abbrev pub key_le : Field → Field → Bool
key_le f g = leb (field_key f) (field_key g)

-- The loop that writes the fields: id, length `as u32` little-endian, value.
unfoldable pub emit : List Field → Bytes
emit [] = []
emit ((id, val) ∷ fs) = id ++ (le_bytes 4 (length val % 2 ^ 32) ++ (val ++ emit fs))

-- The count is `fields.len() as u8`.
unfoldable pub tlv_signing_input : Bytes → ℕ → ℕ → List Field → Bytes
unfolding emit
tlv_signing_input domain_tag struct_tag wire_version fields =
    domain_tag ++ struct_tag ∷ wire_version ∷ (length fields % 256) ∷ emit (sort key_le fields)

-- b"bebop2 cap v1\0\0\0", b"bebop2 framev1\0\0" and b"bebop2 delegv1\0\0".
abbrev pub domain_capability : Bytes
domain_capability =
    b'b' ∷ b'e' ∷ b'b' ∷ b'o' ∷ b'p' ∷ b'2' ∷ 32 ∷ b'c' ∷ b'a' ∷ b'p' ∷ 32 ∷ b'v' ∷ b'1' ∷ 0 ∷ 0 ∷ 0
    ∷ []

abbrev pub domain_signed_frame : Bytes
domain_signed_frame =
    b'b' ∷ b'e' ∷ b'b' ∷ b'o' ∷ b'p' ∷ b'2' ∷ 32 ∷ b'f' ∷ b'r' ∷ b'a' ∷ b'm' ∷ b'e' ∷ b'v' ∷ b'1'
    ∷ 0 ∷ 0 ∷ []

abbrev pub domain_delegation : Bytes
domain_delegation =
    b'b' ∷ b'e' ∷ b'b' ∷ b'o' ∷ b'p' ∷ b'2' ∷ 32 ∷ b'd' ∷ b'e' ∷ b'l' ∷ b'e' ∷ b'g' ∷ b'v' ∷ b'1'
    ∷ 0 ∷ 0 ∷ []

abbrev pub field_channel_binding : ℕ
field_channel_binding = 0xFF
