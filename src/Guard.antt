-- ===== src/Guard.antt =====
-- src/cell/reference.rs: guards of a borrowed value. A reference into a store `S` is how it is read and
-- written there; the store stands for the memory that the cell is in.
pub mod Shared
pub mod Exclusive

-- `&'a mut T`
pub record Reference (S T : Type 0) : Type 0 where
  pub read : S → T
  pub write : T → S → S

-- A part of a value that a reference to it gives access to, such as a field or a stretch of a slice.
abbrev pub through : {S T U : Type 0} → Reference S T → Reference T U → Reference S U
through r part = record {
  read = λ s. part.read (r.read s);
  write = λ u s. r.write (part.write u (r.read s)) s;
}
