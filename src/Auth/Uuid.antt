-- ===== src/Auth/Uuid.antt =====
-- The text of a uuid column. PostgreSQL stores 128 bits, prints them in lower case with hyphens
-- and reads either case; JavaScript compares the texts.
use agentmesh_mcp.Prelude.{
  ℕ, ◌+◌, ◌-◌, ◌*◌, ◌/◌, ◌%◌, ◌^◌, ◌<◌, ◌≡◌, refl, ◌∙◌, ap, [], ◌∷◌, ◌++◌, map, Text, ltb, leb,
  ◌==◌, lower, if◌then◌else◌, arith, length, false,
}
use agentmesh_mcp.Schema.{Uuid}

unfoldable pub hex_digit : ℕ → ℕ
hex_digit d = if ltb d 10 then 48 + d else 87 + d

-- Four hexadecimal digits, of the low 16 bits.
unfoldable pub hex_group : ℕ → Text
hex_group n =
    hex_digit (n / 4096 % 16)
    ∷ hex_digit (n / 256 % 16)
    ∷ hex_digit (n / 16 % 16)
    ∷ hex_digit (n % 16)
    ∷ []

unfoldable pub uuid_text : Uuid → Text
uuid_text n =
    hex_group (n / 65536 ^ 7)
    ++ hex_group (n / 65536 ^ 6)
    ++ b'-' ∷ hex_group (n / 65536 ^ 5)
    ++ b'-' ∷ hex_group (n / 65536 ^ 4)
    ++ b'-' ∷ hex_group (n / 65536 ^ 3)
    ++ b'-' ∷ hex_group (n / 65536 ^ 2)
    ++ hex_group (n / 65536)
    ++ hex_group n

unfoldable pub hex_value : ℕ → ℕ
hex_value c = if leb c b'9' then c - 48 else if leb c b'F' then c - 55 else c - 87

uuid_value_from : Uuid → Text → Uuid
uuid_value_from acc [] = acc
uuid_value_from acc (c ∷ cs) =
    uuid_value_from (if c == b'-' then acc else acc * 16 + hex_value c) cs

unfoldable pub uuid_value : Text → Uuid
unfolding uuid_value_from hex_value
uuid_value t = uuid_value_from 0 t

pub length-uuid_text : (n : Uuid) → length (uuid_text n) ≡ 36
unfolding uuid_text hex_group
length-uuid_text n = refl

lower-hex_digit : (d : ℕ) → d < 16 → lower (hex_digit d) ≡ hex_digit d
unfolding hex_digit lower
lower-hex_digit d h = ground arith

hex_value-hex_digit : (d : ℕ) → d < 16 → hex_value (hex_digit d) ≡ d
unfolding hex_digit hex_value
hex_value-hex_digit d h = ground arith

hex_digit-ne-hyphen : (d : ℕ) → (hex_digit d == b'-') ≡ false
unfolding hex_digit
hex_digit-ne-hyphen d = ground arith

value-digit :
    (acc d : ℕ) (rest : Text)
    → d < 16
    → uuid_value_from acc (hex_digit d ∷ rest) ≡ uuid_value_from (acc * 16 + d) rest
unfolding uuid_value_from
value-digit acc d rest h = rw (hex_digit-ne-hyphen d) (rw (hex_value-hex_digit d h))

value-group :
    (acc n : ℕ) (rest : Text)
    → uuid_value_from acc (hex_group n ++ rest) ≡ uuid_value_from (acc * 65536 + n % 65536) rest
unfolding hex_group
value-group acc n rest =
    value-digit acc (n / 4096 % 16) _ (omega arith)
    ∙ value-digit _ (n / 256 % 16) _ (omega arith)
    ∙ value-digit _ (n / 16 % 16) _ (omega arith)
    ∙ value-digit _ (n % 16) _ (omega arith)
    ∙ ap (λ v. uuid_value_from v rest) (omega arith)

value-hyphen :
    (acc : ℕ) (rest : Text) → uuid_value_from acc (b'-' ∷ rest) ≡ uuid_value_from acc rest
unfolding uuid_value_from
value-hyphen acc rest = refl

value_from-nil : (n : ℕ) → uuid_value_from n [] ≡ n
unfolding uuid_value_from
value_from-nil n = refl

-- One more group: `a` is what the groups before it say of `m`.
value-next :
    (a m : ℕ) (rest : Text)
    → a ≡ m / 65536
    → uuid_value_from a (hex_group m ++ rest) ≡ uuid_value_from m rest
value-next a m rest h = value-group a m rest ∙ ap (λ v. uuid_value_from v rest) (omega arith)

value_from-uuid_text : (n : Uuid) → n < 2 ^ 128 → uuid_value_from 0 (uuid_text n) ≡ n
unfolding uuid_text hex_group
value_from-uuid_text n h =
    value-next 0 (n / 65536 ^ 7) _ (omega arith)
    ∙ value-next (n / 65536 ^ 7) (n / 65536 ^ 6) _ (omega arith)
    ∙ value-hyphen _ _
    ∙ value-next (n / 65536 ^ 6) (n / 65536 ^ 5) _ (omega arith)
    ∙ value-hyphen _ _
    ∙ value-next (n / 65536 ^ 5) (n / 65536 ^ 4) _ (omega arith)
    ∙ value-hyphen _ _
    ∙ value-next (n / 65536 ^ 4) (n / 65536 ^ 3) _ (omega arith)
    ∙ value-hyphen _ _
    ∙ value-next (n / 65536 ^ 3) (n / 65536 ^ 2) _ (omega arith)
    ∙ value-next (n / 65536 ^ 2) (n / 65536) _ (omega arith)
    ∙ value-next (n / 65536) n [] refl
    ∙ value_from-nil n

-- Reading a printed id gives it back.
pub uuid_value-uuid_text : (n : Uuid) → n < 2 ^ 128 → uuid_value (uuid_text n) ≡ n
unfolding uuid_value
uuid_value-uuid_text n h = value_from-uuid_text n h

lower-digit : (d : ℕ) → lower (hex_digit (d % 16)) ≡ hex_digit (d % 16)
lower-digit d = lower-hex_digit (d % 16) (omega arith)

lower-hyphen : lower b'-' ≡ b'-'
unfolding lower
lower-hyphen = refl

pub lower-uuid_text : (n : Uuid) → map lower (uuid_text n) ≡ uuid_text n
unfolding uuid_text hex_group
lower-uuid_text n = simp (lower-digit, lower-hyphen)
