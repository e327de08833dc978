-- ===== src/Relay/Utf8.antt =====
-- The standard library's test `std::str::from_utf8`, on a list of bytes: each character is a
-- first byte and the ranges of the bytes that follow it.
use moqt_minimal.Prelude.{
  ℕ, Bool, true, false, ◌&&◌, Option, none, some, List, [], ◌∷◌, leb, ◌==◌, if◌then◌else◌,
}

abbrev Range : Type 0
Range = ℕ × ℕ

abbrev tail_byte : Range
tail_byte = (0x80, 0xbf)

unfoldable pub following : ℕ → Option (List (ℕ × ℕ))
following b =
    if leb b 0x7f
    then some []
    else (if leb 0xc2 b && leb b 0xdf
        then some (tail_byte ∷ [])
        else (if b == 0xe0
            then some ((0xa0, 0xbf) ∷ tail_byte ∷ [])
            else (if b == 0xed
                then some ((0x80, 0x9f) ∷ tail_byte ∷ [])
                else (if leb 0xe1 b && leb b 0xef
                    then some (tail_byte ∷ tail_byte ∷ [])
                    else (if b == 0xf0
                        then some ((0x90, 0xbf) ∷ tail_byte ∷ tail_byte ∷ [])
                        else (if leb 0xf1 b && leb b 0xf3
                            then some (tail_byte ∷ tail_byte ∷ tail_byte ∷ [])
                            else (if b == 0xf4
                                then some ((0x80, 0x8f) ∷ tail_byte ∷ tail_byte ∷ [])
                                else none)))))))

-- `expected` are the ranges of the bytes that the current character still needs.
unfoldable pub utf8_from : List (ℕ × ℕ) → List ℕ → Bool
unfolding following
utf8_from [] [] = true
utf8_from (r ∷ rs) [] = false
utf8_from ((low, high) ∷ rs) (b ∷ bs) = leb low b && leb b high && utf8_from rs bs
utf8_from [] (b ∷ bs) = elim (following b) [ none ↦ false | some rs ↦ utf8_from rs bs ]

unfoldable pub is_utf8 : List ℕ → Bool
unfolding utf8_from
is_utf8 bytes = utf8_from [] bytes
