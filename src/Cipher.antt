-- ===== src/Cipher.antt =====
-- core/cipher: the two coders, the parcel format and the class `Cipher`.
-- A buffer with its length is a list of bytes; the null tests on pointers have no counterpart, as
-- every caller in the repository passes arrays.
pub mod Coder
pub mod Shift
pub mod Padding
pub mod Parcel
pub mod Crypt
