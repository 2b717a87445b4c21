-- ===== src/Text/Paths.antt =====
-- path/filepath's Clean and Join, on a system whose separator is a slash.
use recovery_stencil.Prelude.{
  Bool, true, false, List, [], ◌∷◌, ◌++◌, ◌==◌ as nat_eq, if◌then◌else◌, ◌≡◌, refl,
}
use mathlib.Core.List.{reverse}
use recovery_stencil.Repl.{String, ◌==◌}
use recovery_stencil.Text.{codes}

-- the elements between the slashes, with an element read so far
unfoldable pub elements_from : String → String → List String
elements_from e [] = e ∷ []
elements_from e (c ∷ s) =
    let next = elements_from [] s in
    let more = elements_from (e ++ c ∷ []) s in if nat_eq c 47 then e ∷ next else more

-- "..", in a rooted path or not, behind the elements that are kept, the last one first
abbrev pub go_up : Bool → List String → List String
go_up true [] = []
go_up false [] = codes ".." ∷ []
go_up rooted (e ∷ kept) = if e == codes ".." then codes ".." ∷ e ∷ kept else kept

unfoldable pub clean_elements : Bool → List String → List String → List String
clean_elements rooted kept [] = reverse kept
clean_elements rooted kept (e ∷ es) =
    clean_elements rooted
      (if e == codes ".."
        then go_up rooted kept
        else if e == []
        then kept
        else if e == codes "."
        then kept
        else e ∷ kept)
      es

unfoldable pub join_slash : List String → String
join_slash [] = []
join_slash (e ∷ []) = e
join_slash (e ∷ d ∷ es) = e ++ 47 ∷ join_slash (d ∷ es)

abbrev pub or_dot : String → String
or_dot [] = codes "."
or_dot (c ∷ s) = c ∷ s

-- filepath.Clean
unfoldable pub clean : String → String
unfolding clean_elements elements_from join_slash
clean [] = codes "."
clean (c ∷ s) =
    if nat_eq c 47
    then 47 ∷ join_slash (clean_elements true [] (elements_from [] s))
    else or_dot (join_slash (clean_elements false [] (elements_from [] (c ∷ s))))

-- filepath.Join of two elements
unfoldable pub join : String → String → String
unfolding clean
join [] [] = []
join [] (d ∷ t) = clean (d ∷ t)
join (c ∷ s) [] = clean (c ∷ s)
join (c ∷ s) (d ∷ t) = clean ((c ∷ s) ++ 47 ∷ d ∷ t)

clean_run : clean (codes "a//b/../c/./") ≡ codes "a/c"
unfolding clean clean_elements elements_from join_slash
clean_run = refl

join_run : join (codes "data/") (codes "../t") ≡ codes "t"
unfolding join clean clean_elements elements_from join_slash
join_run = refl
