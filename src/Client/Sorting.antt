-- ===== src/Client/Sorting.antt =====
-- A sort with the laws of sort.Slice, which the examples run.
use chainmesh.Base.Sorting.{sort_by, sort_by-perm, sort_by-Ascends}
use chainmesh.Client.Routing.{SortSlice}

abbrev pub insertion_sort : SortSlice
insertion_sort = record {
  slice = sort_by;
  slice_perm = sort_by-perm;
  slice_sorted = λ key xs. sort_by-Ascends key xs;
}
