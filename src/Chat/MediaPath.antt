-- ===== src/Chat/MediaPath.antt =====
-- The check that SendMessageUseCase.Execute (internal/application/chat/usecase/send_message.go) makes
-- on the content of an image or file message: url.PathUnescape, path.Clean and three tests on the
-- result. A path is its bytes; 37 is '%', 46 is '.', 47 is '/', 92 is '\'.
pub mod Safety
use tentserv_chat_server.Prelude.{
  ℕ, ◌+◌, ◌-◌, ◌*◌, Bool, true, false, Option, none, some, List, [], ◌∷◌, ◌++◌, ◌==◌, ◌&&◌, ◌||◌,
  not, leb, if◌then◌else◌, same_codes,
}

-- The value of a hexadecimal digit.
hex_digit : ℕ → Option ℕ
hex_digit c =
    if leb b'0' c && leb c b'9'
    then some (c - b'0')
    else if leb b'a' c && leb c b'f'
    then some (c - b'a' + 10)
    else if leb b'A' c && leb c b'F'
    then some (c - b'A' + 10)
    else none

-- The byte of two digits, in front of what is decoded behind them.
abbrev pub hex_byte : Option ℕ → Option ℕ → Option (List ℕ) → Option (List ℕ)
hex_byte (some h) (some l) (some rest) = some ((16 * h + l) ∷ rest)
hex_byte _ _ _ = none

abbrev pub with_byte : ℕ → Option (List ℕ) → Option (List ℕ)
with_byte c none = none
with_byte c (some rest) = some (c ∷ rest)

-- url.PathUnescape: '%' must be followed by two digits; '+' stands for itself
unfoldable pub path_unescape : List ℕ → Option (List ℕ)
unfolding hex_digit
path_unescape [] = some []
path_unescape (c ∷ []) = if c == b'%' then none else some (c ∷ [])
path_unescape (c ∷ d ∷ []) = if c == b'%' then none else with_byte c (path_unescape (d ∷ []))
path_unescape (c ∷ d ∷ e ∷ s) =
    let escaped = hex_byte (hex_digit d) (hex_digit e) (path_unescape s) in
    let plain = with_byte c (path_unescape (d ∷ e ∷ s)) in if c == b'%' then escaped else plain

abbrev pub extend : ℕ → List (List ℕ) → List (List ℕ)
extend c [] = (c ∷ []) ∷ []
extend c (e ∷ es) = (c ∷ e) ∷ es

abbrev pub place : ℕ → List (List ℕ) → List (List ℕ)
place c es = if c == b'/' then [] ∷ es else extend c es

-- The elements of a path, between its slashes.
pub elements : List ℕ → List (List ℕ)
elements [] = [] ∷ []
elements (c ∷ s) = place c (elements s)

abbrev pub dotdot : List ℕ
dotdot = b'.' ∷ b'.' ∷ []

abbrev pub is_dotdot : List ℕ → Bool
is_dotdot e = same_codes e dotdot

-- an empty element, or "."
abbrev pub is_skipped : List ℕ → Bool
is_skipped e = same_codes e [] || same_codes e (b'.' ∷ [])

-- ".." drops the element before it; at the start of a path that is not rooted it stays.
abbrev pub pop : Bool → List (List ℕ) → List (List ℕ)
pop rooted [] = if rooted then [] else dotdot ∷ []
pop rooted (top ∷ stack) = if is_dotdot top then dotdot ∷ top ∷ stack else stack

abbrev pub clean_step : Bool → List (List ℕ) → List ℕ → List (List ℕ)
clean_step rooted stack e =
    if is_skipped e then stack else if is_dotdot e then pop rooted stack else e ∷ stack

-- the elements that are left, the last one first
pub resolve : Bool → List (List ℕ) → List (List ℕ) → List (List ℕ)
resolve rooted stack [] = stack
resolve rooted stack (e ∷ es) = resolve rooted (clean_step rooted stack e) es

pub render : List (List ℕ) → List ℕ
render [] = []
render (e ∷ []) = e
render (e ∷ f ∷ es) = render (f ∷ es) ++ b'/' ∷ e

abbrev pub or_dot : List ℕ → List ℕ
or_dot [] = b'.' ∷ []
or_dot (c ∷ s) = c ∷ s

abbrev pub clean_elements : Bool → List (List ℕ) → List ℕ
clean_elements true es = b'/' ∷ render (resolve true [] es)
clean_elements false es = or_dot (render (resolve false [] es))

-- path.Clean
unfoldable pub clean : List ℕ → List ℕ
unfolding elements resolve render
clean [] = b'.' ∷ []
clean (c ∷ s) = clean_elements (c == b'/') (elements (c ∷ s))

-- strings.Contains(s, "..")
pub contains_dotdot : List ℕ → Bool
contains_dotdot [] = false
contains_dotdot (a ∷ []) = false
contains_dotdot (a ∷ b ∷ s) = if a == b'.' && b == b'.' then true else contains_dotdot (b ∷ s)

-- strings.Contains(s, "\\")
pub contains_backslash : List ℕ → Bool
contains_backslash [] = false
contains_backslash (a ∷ s) = if a == 92 then true else contains_backslash s

-- strings.HasPrefix(s, "/")
abbrev pub is_rooted : List ℕ → Bool
is_rooted [] = false
is_rooted (c ∷ s) = c == b'/'

abbrev pub is_refused : List ℕ → Bool
is_refused s = contains_dotdot s || is_rooted s || contains_backslash s

abbrev pub is_accepted : Option (List ℕ) → Bool
is_accepted none = false
is_accepted (some decoded) = not (is_refused (clean decoded))

-- The content passes the check.
unfoldable pub is_safe_path : List ℕ → Bool
unfolding path_unescape clean contains_dotdot contains_backslash
is_safe_path content = is_accepted (path_unescape content)
