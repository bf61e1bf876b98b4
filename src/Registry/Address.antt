-- ===== src/Registry/Address.antt =====
-- registry/util.go: the address of a service, and the texts of numbers that it is made of.
use Prim.Native.Char.{code}
use Prim.Native.String.{◌∷◌ as push, [] as empty, ◌++◌ as append}
use grodyia.Prelude.{
  ℕ, zero, suc, ◌+◌, ◌-◌, ◌*◌, ◌/◌, ◌%◌, ◌^◌, String, Bool, true, false, ◌&&◌, List, [], ◌∷◌,
  Option, none, some, if◌then◌else◌, leb, ltb, nat_eq, ◌==◌,
}
use grodyia.Prelude.Text.{split_on}
use grodyia.Prelude.Int.{ℤ, pos, negsuc, sub_ℕ}

-- The number of decimal digits that go on from `n`.
digits_from : ℕ → String → Option ℕ
digits_from n empty = some n
digits_from n (push c s) =
    let rest = digits_from (n * 10 + (code c - 48)) s in
    if leb 48 (code c) && leb (code c) 57 then rest else none

-- The number of a text of digits.
digits : String → Option ℕ
unfolding digits_from
digits empty = none
digits (push c s) = digits_from 0 (push c s)

-- A number within an int64, or none.
in_range : Bool → Option ℕ → Option ℤ
in_range negative none = none
in_range false (some n) = if ltb n (2 ^ 63) then some (pos n) else none
in_range true (some n) = if leb n (2 ^ 63) then some (sub_ℕ 0 n) else none

-- `strconv.Atoi`
unfoldable pub atoi : String → Option ℤ
unfolding digits in_range
atoi empty = none
atoi (push c s) =
    if code c == 45
    then in_range true (digits s)
    else if code c == 43
    then in_range false (digits s)
    else in_range false (digits (push c s))

port_of : Option ℤ → ℤ → ℤ
port_of none default_port = default_port
port_of (some port) default_port = port

parse_parts : List String → ℤ → String × ℤ
unfolding port_of
parse_parts [] default_port = ("", default_port)
parse_parts (host ∷ []) default_port = (host, default_port)
parse_parts (host ∷ port ∷ rest) default_port = (host, port_of (atoi port) default_port)

-- `parseAddr`
unfoldable pub parse_addr : String → ℤ → String × ℤ
unfolding split_on parse_parts atoi
parse_addr addr default_port = parse_parts (split_on 58 addr) default_port

digit : ℕ → String
digit zero = "0"
digit (suc zero) = "1"
digit (suc (suc zero)) = "2"
digit (suc (suc (suc zero))) = "3"
digit (suc (suc (suc (suc zero)))) = "4"
digit (suc (suc (suc (suc (suc zero))))) = "5"
digit (suc (suc (suc (suc (suc (suc zero)))))) = "6"
digit (suc (suc (suc (suc (suc (suc (suc zero))))))) = "7"
digit (suc (suc (suc (suc (suc (suc (suc (suc zero)))))))) = "8"
digit (suc (suc (suc (suc (suc (suc (suc (suc (suc n))))))))) = "9"

-- `%d` of a number of at most as many digits as the fuel.
decimal : ℕ → ℕ → String
unfolding digit
decimal zero n = ""
decimal (suc fuel) n =
    let front = decimal fuel (n / 10) in if ltb n 10 then digit n else append front (digit (n % 10))

show_ℤ : ℤ → String
unfolding decimal
show_ℤ (pos n) = decimal 20 n
show_ℤ (negsuc n) = append "-" (decimal 20 (suc n))

-- `fmt.Sprintf("%s:%d", host, port)`
unfoldable pub format_addr : String → ℤ → String
unfolding show_ℤ
format_addr host port = append host (append ":" (show_ℤ port))
