-- ===== src/View/Dents/Unique.antt =====
-- There is one order only in which `ClientUi::show_dents` (src/view-client.cpp) can list a directory.
use mathlib.Core.List.{Perm}
use mathlib.Core.List.Perm
use mathlib.Core.Logic.Or
use remy.Base.{List}
