-- ===== src/Huffman/Tables.antt =====
-- The lookup tables of src/dependencies/hpack/huffy/decode.c, run by run: `entries n octet bits`
-- stands for `n` equal entries `{ octet, bits }`, in the order of the source.
use shitty.Prelude.{ℕ, ◌-◌, ltb, if◌then◌else◌, List, [], ◌∷◌, Option, none, some}

-- `struct fast_find_symbol`
pub record FastFindSymbol : Type 0 where
  pub octet : ℕ
  pub bits : ℕ

pub record Run : Type 0 where
  pub count : ℕ
  pub entry : FastFindSymbol

abbrev entries : ℕ → ℕ → ℕ → Run
entries n octet bits = record { count = n; entry = record { octet = octet; bits = bits } }

-- `table[i]`; `none` is a read behind the end of the table.
unfoldable pub entry_at : List Run → ℕ → Option FastFindSymbol
entry_at [] i = none
entry_at (run ∷ table) i =
    let later = entry_at table (i - run.count) in if ltb i run.count then some run.entry else later

-- `SENTINEL`, in both fields of an entry that stands for a longer symbol.
abbrev pub sentinel : ℕ
sentinel = 0xff

-- Indexed by the first octet.
unfoldable pub shortbits0 : List Run
shortbits0 =
    entries 8 48 5
    ∷ entries 8 49 5
    ∷ entries 8 50 5
    ∷ entries 8 97 5
    ∷ entries 8 99 5
    ∷ entries 8 101 5
    ∷ entries 8 105 5
    ∷ entries 8 111 5
    ∷ entries 8 115 5
    ∷ entries 8 116 5
    ∷ entries 4 32 6
    ∷ entries 4 37 6
    ∷ entries 4 45 6
    ∷ entries 4 46 6
    ∷ entries 4 47 6
    ∷ entries 4 51 6
    ∷ entries 4 52 6
    ∷ entries 4 53 6
    ∷ entries 4 54 6
    ∷ entries 4 55 6
    ∷ entries 4 56 6
    ∷ entries 4 57 6
    ∷ entries 4 61 6
    ∷ entries 4 65 6
    ∷ entries 4 95 6
    ∷ entries 4 98 6
    ∷ entries 4 100 6
    ∷ entries 4 102 6
    ∷ entries 4 103 6
    ∷ entries 4 104 6
    ∷ entries 4 108 6
    ∷ entries 4 109 6
    ∷ entries 4 110 6
    ∷ entries 4 112 6
    ∷ entries 4 114 6
    ∷ entries 4 117 6
    ∷ entries 2 58 7
    ∷ entries 2 66 7
    ∷ entries 2 67 7
    ∷ entries 2 68 7
    ∷ entries 2 69 7
    ∷ entries 2 70 7
    ∷ entries 2 71 7
    ∷ entries 2 72 7
    ∷ entries 2 73 7
    ∷ entries 2 74 7
    ∷ entries 2 75 7
    ∷ entries 2 76 7
    ∷ entries 2 77 7
    ∷ entries 2 78 7
    ∷ entries 2 79 7
    ∷ entries 2 80 7
    ∷ entries 2 81 7
    ∷ entries 2 82 7
    ∷ entries 2 83 7
    ∷ entries 2 84 7
    ∷ entries 2 85 7
    ∷ entries 2 86 7
    ∷ entries 2 87 7
    ∷ entries 2 89 7
    ∷ entries 2 106 7
    ∷ entries 2 107 7
    ∷ entries 2 113 7
    ∷ entries 2 118 7
    ∷ entries 2 119 7
    ∷ entries 2 120 7
    ∷ entries 2 121 7
    ∷ entries 2 122 7
    ∷ entries 1 38 8
    ∷ entries 1 42 8
    ∷ entries 1 44 8
    ∷ entries 1 59 8
    ∷ entries 1 88 8
    ∷ entries 1 90 8
    ∷ entries 2 sentinel sentinel
    ∷ []

-- Indexed by the second octet, behind ff.
unfoldable pub shortbits1_ff : List Run
shortbits1_ff =
    entries 64 63 10
    ∷ entries 32 39 11
    ∷ entries 32 43 11
    ∷ entries 32 124 11
    ∷ entries 16 35 12
    ∷ entries 16 62 12
    ∷ entries 8 0 13
    ∷ entries 8 36 13
    ∷ entries 8 64 13
    ∷ entries 8 91 13
    ∷ entries 8 93 13
    ∷ entries 8 126 13
    ∷ entries 4 94 14
    ∷ entries 4 125 14
    ∷ entries 2 60 15
    ∷ entries 2 96 15
    ∷ entries 2 123 15
    ∷ entries 2 sentinel sentinel
    ∷ []

-- Indexed by the third octet, behind ff fe.
unfoldable pub shortbits2_fffe : List Run
shortbits2_fffe =
    entries 32 92 19
    ∷ entries 32 195 19
    ∷ entries 32 208 19
    ∷ entries 16 128 20
    ∷ entries 16 130 20
    ∷ entries 16 131 20
    ∷ entries 16 162 20
    ∷ entries 16 184 20
    ∷ entries 16 194 20
    ∷ entries 16 224 20
    ∷ entries 16 226 20
    ∷ entries 8 153 21
    ∷ entries 8 161 21
    ∷ entries 8 167 21
    ∷ entries 8 172 21
    ∷ []

-- Indexed by the third octet, behind ff ff.
unfoldable pub shortbits2_ffff : List Run
shortbits2_ffff =
    entries 8 176 21
    ∷ entries 8 177 21
    ∷ entries 8 179 21
    ∷ entries 8 209 21
    ∷ entries 8 216 21
    ∷ entries 8 217 21
    ∷ entries 8 227 21
    ∷ entries 8 229 21
    ∷ entries 8 230 21
    ∷ entries 4 129 22
    ∷ entries 4 132 22
    ∷ entries 4 133 22
    ∷ entries 4 134 22
    ∷ entries 4 136 22
    ∷ entries 4 146 22
    ∷ entries 4 154 22
    ∷ entries 4 156 22
    ∷ entries 4 160 22
    ∷ entries 4 163 22
    ∷ entries 4 164 22
    ∷ entries 4 169 22
    ∷ entries 4 170 22
    ∷ entries 4 173 22
    ∷ entries 4 178 22
    ∷ entries 4 181 22
    ∷ entries 4 185 22
    ∷ entries 4 186 22
    ∷ entries 4 187 22
    ∷ entries 4 189 22
    ∷ entries 4 190 22
    ∷ entries 4 196 22
    ∷ entries 4 198 22
    ∷ entries 4 228 22
    ∷ entries 4 232 22
    ∷ entries 4 233 22
    ∷ entries 2 1 23
    ∷ entries 2 135 23
    ∷ entries 2 137 23
    ∷ entries 2 138 23
    ∷ entries 2 139 23
    ∷ entries 2 140 23
    ∷ entries 2 141 23
    ∷ entries 2 143 23
    ∷ entries 2 147 23
    ∷ entries 2 149 23
    ∷ entries 2 150 23
    ∷ entries 2 151 23
    ∷ entries 2 152 23
    ∷ entries 2 155 23
    ∷ entries 2 157 23
    ∷ entries 2 158 23
    ∷ entries 2 165 23
    ∷ entries 2 166 23
    ∷ entries 2 168 23
    ∷ entries 2 174 23
    ∷ entries 2 175 23
    ∷ entries 2 180 23
    ∷ entries 2 182 23
    ∷ entries 2 183 23
    ∷ entries 2 188 23
    ∷ entries 2 191 23
    ∷ entries 2 197 23
    ∷ entries 2 231 23
    ∷ entries 2 239 23
    ∷ entries 1 9 24
    ∷ entries 1 142 24
    ∷ entries 1 144 24
    ∷ entries 1 145 24
    ∷ entries 1 148 24
    ∷ entries 1 159 24
    ∷ entries 1 171 24
    ∷ entries 1 206 24
    ∷ entries 1 215 24
    ∷ entries 1 225 24
    ∷ entries 1 236 24
    ∷ entries 1 237 24
    ∷ entries 10 sentinel sentinel
    ∷ []

-- Indexed by the low half of the third octet and the high half of the fourth (`INVALID23` is 0).
unfoldable pub shortbits23 : List Run
shortbits23 =
    entries 96 0 0
    ∷ entries 8 199 25
    ∷ entries 8 207 25
    ∷ entries 8 234 25
    ∷ entries 8 235 25
    ∷ entries 4 192 26
    ∷ entries 4 193 26
    ∷ entries 4 200 26
    ∷ entries 4 201 26
    ∷ entries 4 202 26
    ∷ entries 4 205 26
    ∷ entries 4 210 26
    ∷ entries 4 213 26
    ∷ entries 4 218 26
    ∷ entries 4 219 26
    ∷ entries 4 238 26
    ∷ entries 4 240 26
    ∷ entries 4 242 26
    ∷ entries 4 243 26
    ∷ entries 4 255 26
    ∷ entries 2 203 27
    ∷ entries 2 204 27
    ∷ entries 2 211 27
    ∷ entries 2 212 27
    ∷ entries 2 214 27
    ∷ entries 2 221 27
    ∷ entries 2 222 27
    ∷ entries 2 223 27
    ∷ entries 2 241 27
    ∷ entries 2 244 27
    ∷ entries 2 245 27
    ∷ entries 2 246 27
    ∷ entries 2 247 27
    ∷ entries 2 248 27
    ∷ entries 2 250 27
    ∷ entries 2 251 27
    ∷ entries 2 252 27
    ∷ entries 2 253 27
    ∷ []

-- Indexed by the lowest bit of the third octet and the high six bits of the fourth.
unfoldable pub shortbits3 : List Run
shortbits3 =
    entries 8 254 27
    ∷ entries 4 2 28
    ∷ entries 4 3 28
    ∷ entries 4 4 28
    ∷ entries 4 5 28
    ∷ entries 4 6 28
    ∷ entries 4 7 28
    ∷ entries 4 8 28
    ∷ entries 4 11 28
    ∷ entries 4 12 28
    ∷ entries 4 14 28
    ∷ entries 4 15 28
    ∷ entries 4 16 28
    ∷ entries 4 17 28
    ∷ entries 4 18 28
    ∷ entries 4 19 28
    ∷ entries 4 20 28
    ∷ entries 4 21 28
    ∷ entries 4 23 28
    ∷ entries 4 24 28
    ∷ entries 4 25 28
    ∷ entries 4 26 28
    ∷ entries 4 27 28
    ∷ entries 4 28 28
    ∷ entries 4 29 28
    ∷ entries 4 30 28
    ∷ entries 4 31 28
    ∷ entries 4 127 28
    ∷ entries 4 220 28
    ∷ entries 4 249 28
    ∷ entries 1 10 30
    ∷ entries 1 13 30
    ∷ entries 1 22 30
    ∷ entries 1 sentinel sentinel
    ∷ []
