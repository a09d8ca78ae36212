-- ===== src/Examples.antt =====
-- Tests on concrete inputs: the machines, the allocator and the data that they share.
mod Numbers
mod Wire
mod FrameBytes
mod Server
mod Text
mod Chats
mod Sessions
mod Program
mod Linux
mod Arguments
use qmsp.Base.{ap, sym, ◌∙◌, true, false, some, replicate, length, length-replicate}
use qmsp.Base.Memory.{Platform, Allocator}
use mathlib.Core.Option.{some-injective}

-- An x86-64 server with GCC.
abbrev pub x86_64 : Platform
x86_64 = record { little = true; long_size = 8; char_signed = true }

-- A little-endian machine on which a plain `char` is unsigned.
abbrev pub aarch64 : Platform
aarch64 = record { little = true; long_size = 8; char_signed = false }

-- Big-endian machines with a long of eight and of four bytes.
abbrev pub s390x : Platform
s390x = record { little = false; long_size = 8; char_signed = false }

abbrev pub powerpc : Platform
powerpc = record { little = false; long_size = 4; char_signed = false }

-- An allocator that never fails and fills its blocks with 0xAA.
abbrev pub heap : Allocator
heap = record {
  malloc = λ n. some (replicate n 170);
  length-malloc = λ n block got. ap length (sym (some-injective _ _ got)) ∙ length-replicate n 170;
}
