-- ===== src/Path/Tests.antt =====
-- Runs of the functions on paths.
use emos.Base.{◌≡◌, refl, true, false, [], ◌∷◌, none, some, arith}
use emos.Path.{path_join, path_get_fsname, path_get_dirname, path_is_absolute}
use emos.Path.Bounds.{Ended, first_loop-Ended}
use emos.Path.{path_iter_init}
use emos.Path.Canonical.{split, resolve}
use emos.Path.Absolute.{render, path_normalize-render}
use emos.Path.Normal.{first_loop, path_normalize}

-- `/a/../b/` is `/b`.
absolute_up :
    path_normalize 9 20 (some (b'/' ∷ b'a' ∷ b'/' ∷ b'.' ∷ b'.' ∷ b'/' ∷ b'b' ∷ b'/' ∷ []))
    ≡ some (some (b'/' ∷ b'b' ∷ []))
unfolding path_normalize
absolute_up = refl

-- `f:../..` is `f:`, where `f:..` stays.
volume_up_twice :
    (path_normalize 9 20 (some (b'f' ∷ b':' ∷ b'.' ∷ b'.' ∷ b'/' ∷ b'.' ∷ b'.' ∷ []))
      ≡ some (some (b'f' ∷ b':' ∷ [])))
    × (path_normalize 9 20 (some (b'f' ∷ b':' ∷ b'.' ∷ b'.' ∷ []))
        ≡ some (some (b'f' ∷ b':' ∷ b'.' ∷ b'.' ∷ [])))
unfolding path_normalize
volume_up_twice = (refl, refl)

-- `f:a` becomes `f:/a`.
volume_relative :
    path_normalize 9 20 (some (b'f' ∷ b':' ∷ b'a' ∷ []))
    ≡ some (some (b'f' ∷ b':' ∷ b'/' ∷ b'a' ∷ []))
unfolding path_normalize
volume_relative = refl

-- Both functions copy as many bytes as the buffer has, whatever the path.
more_than_the_name :
    (path_get_fsname 3 (b'f' ∷ b':' ∷ b'/' ∷ b'a' ∷ []) ≡ some (b'f' ∷ b':' ∷ b'/' ∷ []))
    × (path_get_dirname 4 (b'a' ∷ b'/' ∷ b'b' ∷ []) ≡ some (b'a' ∷ b'/' ∷ b'b' ∷ 0 ∷ []))
    × (path_get_fsname 9 (b'f' ∷ b':' ∷ []) ≡ none)
unfolding path_get_fsname path_get_dirname
more_than_the_name = (refl, refl, refl)

-- `a` joined with `bc`, in a buffer of 5 bytes, and in one of 4, where the NUL is lost.
joined :
    (path_join (b'a' ∷ []) 5 (b'b' ∷ b'c' ∷ [])
      ≡ record { bytes = b'a' ∷ b'/' ∷ b'b' ∷ b'c' ∷ []; terminated = true })
    × (path_join (b'a' ∷ []) 4 (b'b' ∷ b'c' ∷ [])
        ≡ record { bytes = b'a' ∷ b'/' ∷ b'b' ∷ b'c' ∷ []; terminated = false })
unfolding path_join
joined = (refl, refl)

absolute_volume :
    (path_is_absolute (b'f' ∷ b':' ∷ []) ≡ true)
    × (path_is_absolute (b'f' ∷ b':' ∷ b'a' ∷ []) ≡ false)
unfolding path_is_absolute
absolute_volume = (refl, refl)

first_loop-Ended_example :
    Ended 2 (
      first_loop 9 2 false
        (path_iter_init (b'a' ∷ b'/' ∷ b'.' ∷ b'.' ∷ b'/' ∷ b'.' ∷ b'.' ∷ []))
        [])
unfolding path_iter_init
first_loop-Ended_example =
    first_loop-Ended 9 2 false
      (path_iter_init (b'a' ∷ b'/' ∷ b'.' ∷ b'.' ∷ b'/' ∷ b'.' ∷ b'.' ∷ [])) [] (omega arith)
      (omega arith)

path_normalize-render_example :
    path_normalize 9 16 (some (b'/' ∷ b'a' ∷ b'/' ∷ b'.' ∷ b'.' ∷ b'/' ∷ b'b' ∷ []))
    ≡ some (some (render (resolve [] (split (b'a' ∷ b'/' ∷ b'.' ∷ b'.' ∷ b'/' ∷ b'b' ∷ [])))))
path_normalize-render_example =
    path_normalize-render 9 16 (b'a' ∷ b'/' ∷ b'.' ∷ b'.' ∷ b'/' ∷ b'b' ∷ []) refl (omega arith)
      (omega arith) (omega arith)
