-- ===== src/Store/Db/Packages/Laws.antt =====
-- No package that is assigned goes away: what internal/store/sqlite/sqlite.go keeps of packages.
use ngm.Base.{
  ℕ, ◌≡◌, refl, Bool, true, false, List, [], ◌∷◌, Option, none, some, ◌==◌, if◌then◌else◌, arith,
  ◌>>=◌, fail,
}
use ngm.Text.{Text}
use ngm.Store.{Package, UserPackage}
use ngm.Store.Db.{Db, exec, query}
use ngm.Store.Db.Packages.{
  package_with_id, remove_package, count_assigned, delete_package, refuse_assigned,
}

unfoldable pub is_there : Option Package → Bool
is_there none = false
is_there (some p) = true

-- Every assignment names a package of the table.
unfoldable pub assigned : List Package → List UserPackage → Bool
assigned ps [] = true
assigned ps (a ∷ as') =
    if is_there (package_with_id a.package_id ps) then assigned ps as' else false

package_with_id-remove :
    (id id' : ℕ) (ps : List Package)
    → (id == id') ≡ false
    → package_with_id id' (remove_package id ps) ≡ package_with_id id' ps
unfolding package_with_id remove_package
package_with_id-remove id id' [] h = refl
package_with_id-remove id id' (p ∷ ps) h = ground (arith, package_with_id-remove id id' ps h)

assigned-remove :
    (id : ℕ) (ps : List Package) (as' : List UserPackage)
    → count_assigned id as' ≡ 0
    → assigned ps as' ≡ true
    → assigned (remove_package id ps) as' ≡ true
unfolding assigned count_assigned is_there
assigned-remove id ps [] h k = refl
assigned-remove id ps (a ∷ as') h k =
    ground (arith, assigned-remove id ps as', package_with_id-remove id a.package_id ps)

-- Whatever fails, `DeletePackage` leaves every assignment with its package.
pub delete_package-assigned :
    (fault : ℕ → Option Text) (id : ℕ) (db : Db)
    → assigned db.packages db.user_packages ≡ true
    → assigned (delete_package fault id db).1.packages (delete_package fault id db).1.user_packages
      ≡ true
unfolding delete_package refuse_assigned exec query ◌>>=◌ fail
delete_package-assigned fault id db h =
    ground (arith, assigned-remove id db.packages db.user_packages)
