-- ===== src/Chat/MediaPath/Safety.antt =====
-- A path that passes the check of SendMessageUseCase stays below the directory it is joined to.
use tentserv_chat_server.Prelude.{
  ℕ, zero, suc, ◌≡◌, refl, Bool, true, false, Option, none, some, List, [], ◌∷◌, ◌++◌, ◌==◌, not,
  if◌then◌else◌, arith, any, length, Bool-cases, inl, inr,
}
use tentserv_chat_server.Chat.MediaPath.{
  path_unescape, elements, is_dotdot, is_skipped, clean_step, resolve, render, clean,
  contains_dotdot, or_dot, is_refused, clean_elements, is_accepted, is_rooted, is_safe_path,
}

abbrev rise : Option ℕ → Option ℕ
rise none = none
rise (some zero) = none
rise (some (suc depth)) = some depth

abbrev descend : Option ℕ → Option ℕ
descend none = none
descend (some depth) = some (suc depth)

abbrev walk_step : Option ℕ → List ℕ → Option ℕ
walk_step o e = if is_skipped e then o else if is_dotdot e then rise o else descend o

-- Walk a path element by element; the state is the depth below the start, and `none` once the walk
-- has risen above it.
unfoldable pub walk : Option ℕ → List (List ℕ) → Option ℕ
walk o [] = o
walk o (e ∷ es) = walk (walk_step o e) es

-- The cleaned elements against the walk: as many as its depth, or a ".." that stays.
abbrev Tracks : Option ℕ → List (List ℕ) → Type 0
Tracks none stack = any is_dotdot stack ≡ true
Tracks (some d) stack = (length stack ≡ d) × (any is_dotdot stack ≡ false)

clean_step-Tracks :
    (o : Option ℕ) (stack : List (List ℕ)) (e : List ℕ)
    → Tracks o stack
    → Tracks (walk_step o e) (clean_step false stack e)
clean_step-Tracks none [] e h = ground arith
clean_step-Tracks none (top ∷ stack) e h = ground arith
clean_step-Tracks (some zero) [] e h = ground arith
clean_step-Tracks (some zero) (top ∷ stack) e h = absurd (omega arith)
clean_step-Tracks (some (suc d)) [] e h = absurd (omega arith)
clean_step-Tracks (some (suc d)) (top ∷ stack) e h = ground arith

resolve-Tracks :
    (o : Option ℕ) (stack es : List (List ℕ))
    → Tracks o stack
    → Tracks (walk o es) (resolve false stack es)
unfolding walk resolve
resolve-Tracks o stack [] h = h
resolve-Tracks o stack (e ∷ es) h =
    resolve-Tracks (walk_step o e) (clean_step false stack e) es (clean_step-Tracks o stack e h)

contains_dotdot-append_right :
    (xs ys : List ℕ) → contains_dotdot ys ≡ true → contains_dotdot (xs ++ ys) ≡ true
unfolding contains_dotdot
contains_dotdot-append_right [] ys h = h
contains_dotdot-append_right (a ∷ []) [] h = h
contains_dotdot-append_right (a ∷ []) (b ∷ ys) h = ground arith
contains_dotdot-append_right (a ∷ b ∷ xs) ys h =
    ground (arith, contains_dotdot-append_right (b ∷ xs) ys h)

contains_dotdot-append_left :
    (xs ys : List ℕ) → contains_dotdot xs ≡ true → contains_dotdot (xs ++ ys) ≡ true
unfolding contains_dotdot
contains_dotdot-append_left [] ys h = cc
contains_dotdot-append_left (a ∷ []) ys h = cc
contains_dotdot-append_left (a ∷ b ∷ xs) ys h =
    ground (arith, contains_dotdot-append_left (b ∷ xs) ys)

contains_dotdot_itself : (e : List ℕ) → is_dotdot e ≡ true → contains_dotdot e ≡ true
unfolding contains_dotdot
contains_dotdot_itself [] h = cc
contains_dotdot_itself (a ∷ []) h = ground arith
contains_dotdot_itself (a ∷ b ∷ []) h = ground arith
contains_dotdot_itself (a ∷ b ∷ c ∷ e) h = ground arith

-- A ".." that is left shows in the text of the cleaned path.
contains_dotdot-render :
    (stack : List (List ℕ)) → any is_dotdot stack ≡ true → contains_dotdot (render stack) ≡ true
unfolding render
contains_dotdot-render [] h = cc
contains_dotdot-render (e ∷ []) h = contains_dotdot_itself e (ground arith)
contains_dotdot-render (e ∷ f ∷ es) h = elim (Bool-cases (is_dotdot e)) [
  | inl hit ↦
      contains_dotdot-append_right (render (f ∷ es)) (b'/' ∷ e)
        (contains_dotdot-append_right (b'/' ∷ []) e (contains_dotdot_itself e hit))
  | inr miss ↦
      contains_dotdot-append_left (render (f ∷ es)) (b'/' ∷ e)
        (contains_dotdot-render (f ∷ es) (ground arith))
]

contains_dotdot-or_dot : (s : List ℕ) → contains_dotdot s ≡ true → contains_dotdot (or_dot s) ≡ true
unfolding contains_dotdot
contains_dotdot-or_dot [] h = cc
contains_dotdot-or_dot (c ∷ s) h = h

-- A cleaned path with no ".." comes from a walk that never rose above its start.
walk_of_Tracks :
    (o : Option ℕ) (stack : List (List ℕ))
    → Tracks o stack
    → contains_dotdot (or_dot (render stack)) ≡ false
    → (d : ℕ) × (o ≡ some d)
walk_of_Tracks (some d) stack h clear = (d, refl)
walk_of_Tracks none stack h clear =
    cc (contains_dotdot-or_dot (render stack) (contains_dotdot-render stack h))

refused_of_not : (b : Bool) → not b ≡ true → b ≡ false
refused_of_not b h = ground arith

clear_of_refused : (s : List ℕ) → is_refused s ≡ false → contains_dotdot s ≡ false
clear_of_refused s h = ground arith

-- A refused path is known by its first byte, whatever follows.
walk_of_clean_elements :
    (rooted : Bool) (es : List (List ℕ))
    → is_refused (clean_elements rooted es) ≡ false
    → (rooted ≡ false) × ((d : ℕ) × (walk (some 0) es ≡ some d))
walk_of_clean_elements true es h = absurd (ground arith)
walk_of_clean_elements false es h = (
  refl,
  walk_of_Tracks _ _ (resolve-Tracks (some 0) [] es (refl, refl))
      (clear_of_refused (or_dot (render (resolve false [] es))) h),
)

walk_of_clean :
    (decoded : List ℕ)
    → is_refused (clean decoded) ≡ false
    → (is_rooted decoded ≡ false) × ((d : ℕ) × (walk (some 0) (elements decoded) ≡ some d))
unfolding clean walk
walk_of_clean [] h = (refl, (0, refl))
walk_of_clean (c ∷ s) h = walk_of_clean_elements (c == b'/') (elements (c ∷ s)) h

-- Content that passes the check decodes to a path which is not rooted, and whose elements, walked
-- one by one, never rise above the directory that the walk starts in.
pub safe_path_stays_below :
    (content : List ℕ)
    → is_safe_path content ≡ true
    → (decoded : List ℕ) × (path_unescape content ≡ some decoded)
      × (is_rooted decoded ≡ false)
      × ((d : ℕ) × (walk (some 0) (elements decoded) ≡ some d))
unfolding is_safe_path
safe_path_stays_below content h = decoded_case (path_unescape content) refl h
  where
    decoded_case :
        (o : Option (List ℕ))
        → path_unescape content ≡ o
        → is_accepted o ≡ true
        → (decoded : List ℕ) × (path_unescape content ≡ some decoded)
          × (is_rooted decoded ≡ false)
          × ((d : ℕ) × (walk (some 0) (elements decoded) ≡ some d))
    decoded_case none e h = cc
    decoded_case (some decoded) e h =
        let (relative, below) =
          walk_of_clean decoded (refused_of_not (is_refused (clean decoded)) h) in
        (decoded, e, relative, below)
