-- ===== src/Master/Startup/Paths.antt =====
-- Paths relative to the configuration file.
use coflow_sim_online.Text.Load.{load_text-word}
use coflow_sim_online.Base.{
  All, [], append_assoc, arith, length, length-append, refl, some, subst, ◌++◌, ◌<◌, ◌∷◌, ◌≡◌, ◌≢◌,
}
use coflow_sim_online.Text.{Bytes}
use coflow_sim_online.Text.RoundTrip.{IsWord, IsDark}
use coflow_sim_online.Master.Startup.{directory, load_path, path_size}

abbrev pub NoSlash : Bytes → Type 0
NoSlash = All (λ c. c ≢ b'/')

directory-NoSlash : (s : Bytes) → NoSlash s → directory s ≡ []
unfolding directory
directory-NoSlash [] h = refl
directory-NoSlash (c ∷ s) (hc, h) = ground (arith, directory-NoSlash s h)

directory-append :
    (dir file : Bytes) → NoSlash file → directory (dir ++ b'/' ∷ file) ≡ dir ++ b'/' ∷ []
unfolding directory
directory-append [] file h = ground (arith, directory-NoSlash file h)
directory-append (c ∷ dir) file h =
    let rest = directory-append dir file h in ground (arith, rest, length-append dir (b'/' ∷ []))

IsWord-slash :
    (dir name : Bytes) → All IsDark dir → All IsDark name → IsWord ((dir ++ b'/' ∷ []) ++ name)
IsWord-slash [] name hd hn = ((λ e. cc), (refl, hn))
IsWord-slash (c ∷ dir) name (hc, hd) hn = ((λ e. cc), (hc, (IsWord-slash dir name hd hn).1))

-- A file that the configuration names without a space is looked for in the directory of the
-- configuration file, if neither path has a space and both fit the array.
pub load_path-directory :
    (dir file name old : Bytes)
    → All IsDark dir
    → All IsDark file
    → NoSlash file
    → All IsDark name
    → length (dir ++ b'/' ∷ file) < path_size
    → length ((dir ++ b'/' ∷ []) ++ name) < path_size
    → load_path (dir ++ b'/' ∷ file) name old [] ≡ some ((dir ++ b'/' ∷ []) ++ name, [])
unfolding load_path
load_path-directory dir file name old hd hf slash hn short short' =
    let config : IsWord (dir ++ b'/' ∷ file) =
      subst IsWord (append_assoc dir (b'/' ∷ []) file) (IsWord-slash dir file hd hf) in
    rw (
      load_text-word path_size (dir ++ b'/' ∷ file) old config short,
      directory-append dir file slash,
      load_text-word path_size ((dir ++ b'/' ∷ []) ++ name) (dir ++ b'/' ∷ [])
          (IsWord-slash dir name hd hn) short',
    )
