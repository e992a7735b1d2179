-- ===== src/Override/Cpp.antt =====
-- crates/rlsf_override/os/lib.rs: the operators `new` and `delete` of C++. The source names them
-- by their mangled symbols. Here the name says what the demangled one says, its parameters
-- included.
use rlsf.Base.{ℕ, true, false, Option}
use rlsf.Global.{Os, GlobalTlsf}
use rlsf.Override.{free, cpp_new_impl}

module _ {W : Type 0} (os : Os W) where
  -- The size, the alignment and the reference to `std::nothrow` are not read.
  unfoldable pub delete_array_size_align : (p size align : ℕ) → GlobalTlsf W → Option (GlobalTlsf W)
  unfolding free
  delete_array_size_align p size align = free os p

  unfoldable pub delete_array_align_nothrow :
      (p align tag : ℕ) → GlobalTlsf W → Option (GlobalTlsf W)
  unfolding free
  delete_array_align_nothrow p align tag = free os p

  unfoldable pub delete_array_align : (p align : ℕ) → GlobalTlsf W → Option (GlobalTlsf W)
  unfolding free
  delete_array_align p align = free os p

  unfoldable pub delete_size_align : (p size align : ℕ) → GlobalTlsf W → Option (GlobalTlsf W)
  unfolding free
  delete_size_align p size align = free os p

  unfoldable pub delete_align_nothrow : (p align tag : ℕ) → GlobalTlsf W → Option (GlobalTlsf W)
  unfolding free
  delete_align_nothrow p align tag = free os p

  unfoldable pub delete_align : (p align : ℕ) → GlobalTlsf W → Option (GlobalTlsf W)
  unfolding free
  delete_align p align = free os p

  unfoldable pub new_array_align_nothrow :
      (size align tag : ℕ) → GlobalTlsf W → Option (ℕ × GlobalTlsf W)
  unfolding cpp_new_impl
  new_array_align_nothrow size align tag = cpp_new_impl os size align true

  unfoldable pub new_array_align : (size align : ℕ) → GlobalTlsf W → Option (ℕ × GlobalTlsf W)
  unfolding cpp_new_impl
  new_array_align size align = cpp_new_impl os size align false

  unfoldable pub new_align_nothrow : (size align tag : ℕ) → GlobalTlsf W → Option (ℕ × GlobalTlsf W)
  unfolding cpp_new_impl
  new_align_nothrow size align tag = cpp_new_impl os size align true

  unfoldable pub new_align : (size align : ℕ) → GlobalTlsf W → Option (ℕ × GlobalTlsf W)
  unfolding cpp_new_impl
  new_align size align = cpp_new_impl os size align false

  unfoldable pub delete_array_size : (p size : ℕ) → GlobalTlsf W → Option (GlobalTlsf W)
  unfolding free
  delete_array_size p size = free os p

  unfoldable pub delete_size : (p size : ℕ) → GlobalTlsf W → Option (GlobalTlsf W)
  unfolding free
  delete_size p size = free os p

  unfoldable pub delete_array_nothrow : (p tag : ℕ) → GlobalTlsf W → Option (GlobalTlsf W)
  unfolding free
  delete_array_nothrow p tag = free os p

  unfoldable pub delete_nothrow : (p tag : ℕ) → GlobalTlsf W → Option (GlobalTlsf W)
  unfolding free
  delete_nothrow p tag = free os p

  unfoldable pub delete_array : ℕ → GlobalTlsf W → Option (GlobalTlsf W)
  unfolding free
  delete_array p = free os p

  unfoldable pub delete : ℕ → GlobalTlsf W → Option (GlobalTlsf W)
  unfolding free
  delete p = free os p

  unfoldable pub new_array_nothrow : (size tag : ℕ) → GlobalTlsf W → Option (ℕ × GlobalTlsf W)
  unfolding cpp_new_impl
  new_array_nothrow size tag = cpp_new_impl os size 0 true

  unfoldable pub new_nothrow : (size tag : ℕ) → GlobalTlsf W → Option (ℕ × GlobalTlsf W)
  unfolding cpp_new_impl
  new_nothrow size tag = cpp_new_impl os size 0 true

  unfoldable pub new_array : ℕ → GlobalTlsf W → Option (ℕ × GlobalTlsf W)
  unfolding cpp_new_impl
  new_array size = cpp_new_impl os size 0 false

  unfoldable pub new : ℕ → GlobalTlsf W → Option (ℕ × GlobalTlsf W)
  unfolding cpp_new_impl
  new size = cpp_new_impl os size 0 false
