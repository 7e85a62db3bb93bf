-- ===== src/Fs/File/Offsets.antt =====
-- Where the offset of a file stands after each call.
use hobby_os.Prelude.{ℕ, ◌≡◌, ◌≢◌, none, some, ℤ, pos, negsuc, arith}
use hobby_os.Fs.File.{File, seek, seek_target, tell}

-- `seek` from the start, the offset or the end moves to the sum, if that is not negative, and `tell`
-- then says so; else it fails and moves nothing.
pub seek-tell :
    (f : File) (offset : ℤ) (whence size : ℕ)
    → f.inode ≢ none
    → ((n : ℕ)
        → seek_target f offset whence size ≡ some (pos n)
        → ((seek f offset whence size).0 ≡ pos n) × (tell (seek f offset whence size).1 ≡ n))
      × ((n : ℕ)
          → seek_target f offset whence size ≡ some (negsuc n)
          → seek f offset whence size ≡ (negsuc 0, f))
      × (seek_target f offset whence size ≡ none → seek f offset whence size ≡ (negsuc 0, f))
unfolding seek tell
seek-tell f offset whence size open_file =
    (λ n h. ground arith, λ n h. ground arith, λ h. ground arith)
