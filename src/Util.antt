-- ===== src/Util.antt =====
-- bees/util/util.c, the utilities module: numbers to text, powers, copies in memory. A text is the
-- list of the bytes that are written to the buffer, and a local buffer that is filled from the front
-- and emptied from the back is a stack, its last byte first.
pub mod Types
pub mod Digits
pub mod Signed
pub mod Hex
pub mod Bytes
pub mod Power
mod Tests
use hive_rk.Prelude.{ℕ, zero, suc, ◌+◌, ◌-◌, ◌*◌, ◌/◌, ◌%◌, ◌^◌, ◌==◌, ltb, leb, bit_and, map}
use hive_rk.Prelude.{if◌then◌else◌, Option, none, some, store, List, [], ◌∷◌, ◌++◌, length, get_or}
use hive_rk.Prelude.{replicate, Bool, true, false, ◌||◌}

-- beeUtil.h: the codes of the value types.
abbrev pub u32_type : ℕ
u32_type = 0x5520

abbrev pub i32_type : ℕ
i32_type = 0x4920

abbrev pub u16_type : ℕ
u16_type = 0x5510

abbrev pub i16_type : ℕ
i16_type = 0x4910

abbrev pub u8_type : ℕ
u8_type = 0x5508

abbrev pub i8_type : ℕ
i8_type = 0x4908

-- `temp_buffer[i++] = digit; num /= base` while `num > 0`; `none` when the rounds run out.
unfoldable pub peel : ℕ → (ℕ → ℕ) → ℕ → ℕ → List ℕ → Option (List ℕ)
peel base digit zero num temp = if num == 0 then some temp else none
peel base digit (suc fuel) num temp =
    let rest = peel base digit fuel (num / base) (digit (num % base) ∷ temp) in
    if num == 0 then some temp else rest

-- A local buffer of 32 bytes; its length is proved to be enough for every loop that fills it.
abbrev pub rounds : ℕ
rounds = 32

-- `(num % 10) + '0'`
abbrev pub decimal : ℕ → ℕ
decimal d = d + b'0'

-- The copy back: `buf[j++] = temp_buffer[--i]` while `i > 0`, then the terminator.
unfoldable pub copy_back : List ℕ → List ℕ
copy_back [] = 0 ∷ []
copy_back (c ∷ temp) = c ∷ copy_back temp

unfoldable pub copied : Option (List ℕ) → Option (List ℕ)
copied none = none
copied (some temp) = some (copy_back temp)

pub num_to_str_unsigned : ℕ → Option (List ℕ)
num_to_str_unsigned num =
    if num == 0 then some (b'0' ∷ 0 ∷ []) else copied (peel 10 decimal rounds num [])

-- An int32_t is its bit pattern, below 2 ^ 32: it is negative from 2 ^ 31 on.
abbrev pub negative : ℕ → Bool
negative n = leb (2 ^ 31) n

-- `-num` on the bit pattern
abbrev pub negate : ℕ → ℕ
negate n = (2 ^ 32 - n) % 2 ^ 32

-- `buf[j-1] += add1`: the last byte before the terminator grows.
unfoldable pub bump_last : ℕ → List ℕ → List ℕ
bump_last add1 [] = []
bump_last add1 (c ∷ []) = c ∷ []
bump_last add1 (c ∷ t ∷ []) = (c + add1) % 256 ∷ t ∷ []
bump_last add1 (c ∷ d ∷ t ∷ cs) = c ∷ bump_last add1 (d ∷ t ∷ cs)

unfoldable pub bumped : ℕ → Option (List ℕ) → Option (List ℕ)
bumped add1 none = none
bumped add1 (some buf) = some (bump_last add1 buf)

unfoldable pub signed_temp : Bool → Option (List ℕ) → Option (List ℕ)
signed_temp sign none = none
signed_temp sign (some temp) = some (if sign then b'-' ∷ temp else temp)

-- The loop and the rest of `num_to_str_signed`, with its local variables.
unfoldable pub print_signed : Bool → ℕ → ℕ → Option (List ℕ)
print_signed sign add1 num = bumped add1 (copied (signed_temp sign (peel 10 decimal rounds num [])))

pub num_to_str_signed : ℕ → ℕ → ℕ → ℕ → Option (List ℕ)
num_to_str_signed num0 min max size =
    let num = bit_and num0 size in
    if num == 0
    then some (b'0' ∷ 0 ∷ [])
    else (if num == min
        then print_signed true 1 max
        else (if negative num then print_signed true 0 (negate num) else print_signed false 0 num))

-- An int16_t and an int8_t, read from `args[1]` and widened to an int32_t.
abbrev pub widen : ℕ → ℕ → ℕ
widen w n = let m = n % 2 ^ w in if ltb m (2 ^ (w - 1)) then m else m + (2 ^ 32 - 2 ^ w)

-- What command 1 writes to its buffer, for the type `args[0]` and the number `args[1]`; nothing for
-- a type that is none of the six.
pub num_to_str : ℕ → ℕ → Option (List ℕ)
num_to_str type num =
    if type == i32_type
    then num_to_str_signed num 2147483648 2147483647 0xFFFFFFFF
    else (if type == u32_type
        then num_to_str_unsigned num
        else (if type == i16_type
            then num_to_str_signed (widen 16 num) (2 ^ 32 - 32768) 32767 0x0000FFFF
            else (if type == u16_type
                then num_to_str_unsigned (num % 2 ^ 16)
                else (if type == i8_type
                    then num_to_str_signed (widen 8 num) (2 ^ 32 - 128) 127 0x000000FF
                    else (if type == u8_type
                        then num_to_str_unsigned (num % 2 ^ 8)
                        else some [])))))

-- "0123456789ABCDEF"
abbrev pub hex_digits : List ℕ
hex_digits =
    b'0' ∷ b'1' ∷ b'2' ∷ b'3' ∷ b'4' ∷ b'5' ∷ b'6' ∷ b'7' ∷ b'8' ∷ b'9' ∷ b'A' ∷ b'B' ∷ b'C' ∷ b'D'
    ∷ b'E' ∷ b'F' ∷ []

abbrev pub hex : ℕ → ℕ
hex d = get_or hex_digits d 0

-- The first switch: the value cut to the width of its type.
unfoldable pub limit : ℕ → ℕ → ℕ
limit type num =
    if type == i32_type || type == u32_type
    then num
    else (if type == i16_type || type == u16_type
        then bit_and num 0x0000FFFF
        else (if type == i8_type || type == u8_type then bit_and num 0x000000FF else num))

-- `while(i<width){temp_buffer[i++] = '0';}`
unfoldable pub pad_to : ℕ → ℕ → List ℕ → List ℕ
pad_to zero width temp = temp
pad_to (suc fuel) width temp =
    if ltb (length temp) width then pad_to fuel width (b'0' ∷ temp) else temp

-- The second switch: the digits that each type is padded to.
unfoldable pub hex_width : ℕ → ℕ
hex_width type =
    if type == i32_type || type == u32_type
    then 8
    else (if type == i16_type || type == u16_type
        then 4
        else (if type == i8_type || type == u8_type then 2 else 0))

unfoldable pub padded : ℕ → Option (List ℕ) → Option (List ℕ)
padded width none = none
padded width (some temp) = some (pad_to width width temp)

pub num_to_hex : ℕ → ℕ → Option (List ℕ)
num_to_hex type num0 =
    let num = limit type num0 in
    if num == 0
    then some (b'0' ∷ 0 ∷ [])
    else copied (padded (hex_width type) (peel 16 hex rounds num []))

-- `bitness`, which the switch leaves as it found it, `junk`, for a type that is none of the six.
unfoldable pub bitness : ℕ → ℕ → ℕ
bitness junk type =
    if type == i32_type || type == u32_type
    then 32
    else (if type == i16_type || type == u16_type
        then 16
        else (if type == i8_type || type == u8_type then 8 else junk))

pub num_to_bin : ℕ → ℕ → ℕ → Option (List ℕ)
num_to_bin junk type num0 =
    let num = limit type num0 in
    let width = bitness junk type in
    if num == 0
    then some (replicate width b'0' ++ 0 ∷ [])
    else copied (padded width (peel 2 decimal rounds num []))

-- Bytes in memory.
abbrev pub Bytes : Type 0
Bytes = ℕ → ℕ

-- `for(u32 i = 0; i < size; i++)`, with the rounds that are left.
pub copy_from : ℕ → ℕ → ℕ → ℕ → Bytes → Bytes
copy_from zero i dst src m = m
copy_from (suc n) i dst src m =
    copy_from n (i + 1) dst src (store m ((dst + i) % 2 ^ 32) (m ((src + i) % 2 ^ 32)))

pub memcpy : ℕ → ℕ → ℕ → Bytes → Bytes
memcpy dst src size m = copy_from size 0 dst src m

pub fill_from : ℕ → ℕ → ℕ → ℕ → Bytes → Bytes
fill_from zero i ptr value m = m
fill_from (suc n) i ptr value m = fill_from n (i + 1) ptr value (store m ((ptr + i) % 2 ^ 32) value)

-- `args[1]` is cut to a byte.
pub memset : ℕ → ℕ → ℕ → Bytes → Bytes
memset ptr value size m = fill_from size 0 ptr (value % 2 ^ 8) m

-- `*num1 += *num1`, so often, in `w` bits.
pub double : ℕ → ℕ → ℕ → ℕ
double w zero num = num
double w (suc n) num = double w n ((num + num) % 2 ^ w)

-- One case of `pow` at a signed type of `w` bits: `num2 < 0` clears the number, and the loop has
-- `num2 - 1` rounds, none where that is negative.
pub pow_signed : ℕ → ℕ → ℕ → ℕ
pow_signed w num1 num2 =
    let below = leb (2 ^ (w - 1)) num2 in
    double w (if below then 0 else num2 - 1) (if below then 0 else num1)

-- At uint16_t and uint8_t the bound `num2 - 1` is an int, -1 at 0; at uint32_t it wraps.
pub pow_unsigned : ℕ → ℕ → ℕ → ℕ
pow_unsigned w num1 num2 =
    double w (if w == 32 then (num2 + 2 ^ 32 - 1) % 2 ^ 32 else num2 - 1) num1

-- Command 2: the number behind `args[1]` afterwards, for the exponent `args[2]`.
pub pow : ℕ → ℕ → ℕ → ℕ
pow type num1 num2 =
    if type == i32_type
    then pow_signed 32 num1 num2
    else (if type == u32_type
        then pow_unsigned 32 num1 num2
        else (if type == i16_type
            then pow_signed 16 num1 (num2 % 2 ^ 16)
            else (if type == u16_type
                then pow_unsigned 16 num1 (num2 % 2 ^ 16)
                else (if type == i8_type
                    then pow_signed 8 num1 (num2 % 2 ^ 8)
                    else (if type == u8_type then pow_unsigned 8 num1 (num2 % 2 ^ 8) else num1)))))
