-- ===== src/Persist/Sequences/Utf8.antt =====
-- `str::from_utf8`, which src/persist.rs reads strings through: which bytes are UTF-8.
use skitter.Prelude.{ℕ, Bool, true, ◌&&◌, ◌||◌, List, [], ◌∷◌, leb, ltb, ◌==◌, if◌then◌else◌}

abbrev within : ℕ → ℕ → ℕ → Bool
within lo hi b = leb lo b && leb b hi

-- The second byte, whose range depends on the first, of a sequence of three or four.
abbrev second3 : ℕ → ℕ → Bool
second3 a b =
    if a == 0xe0
    then within 0xa0 0xbf b
    else if a == 0xed
    then within 0x80 0x9f b
    else within 0x80 0xbf b

abbrev second4 : ℕ → ℕ → Bool
second4 a b =
    if a == 0xf0
    then within 0x90 0xbf b
    else if a == 0xf4
    then within 0x80 0x8f b
    else within 0x80 0xbf b

-- How many bytes follow the first one, or 4 if none may stand first.
abbrev extra : ℕ → ℕ
extra a =
    if ltb a 0x80
    then 0
    else if within 0xc2 0xdf a
    then 1
    else if within 0xe0 0xef a
    then 2
    else if within 0xf0 0xf4 a
    then 3
    else 4

abbrev two : ℕ → ℕ → Bool → Bool
two a b rest = extra a == 1 && within 0x80 0xbf b && rest

abbrev three : ℕ → ℕ → ℕ → Bool → Bool
three a b c rest = extra a == 2 && second3 a b && within 0x80 0xbf c && rest

abbrev four : ℕ → ℕ → ℕ → ℕ → Bool → Bool
four a b c d rest = extra a == 3 && second4 a b && within 0x80 0xbf c && within 0x80 0xbf d && rest

unfoldable pub is_utf8 : List ℕ → Bool
is_utf8 [] = true
is_utf8 (a ∷ []) = extra a == 0
is_utf8 (a ∷ b ∷ []) = let one = is_utf8 (b ∷ []) in if extra a == 0 then one else two a b true
is_utf8 (a ∷ b ∷ c ∷ []) =
    let one = is_utf8 (b ∷ c ∷ []) in
    let after = is_utf8 (c ∷ []) in if extra a == 0 then one else two a b after || three a b c true
is_utf8 (a ∷ b ∷ c ∷ d ∷ rest) =
    let one = is_utf8 (b ∷ c ∷ d ∷ rest) in
    let after2 = is_utf8 (c ∷ d ∷ rest) in
    let after3 = is_utf8 (d ∷ rest) in
    let after4 = is_utf8 rest in
    if extra a == 0
    then one
    else if extra a == 1
    then two a b after2
    else if extra a == 2
    then three a b c after3
    else four a b c d after4
