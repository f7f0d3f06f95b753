-- ===== src/Config/Examples.antt =====
-- A concrete configuration, on which the theorems about src/configor.cpp apply.
use ashe.Base.{◌≡◌, refl, [], ◌∷◌, some, codes, arith}
use ashe.Config.{Element, Elements, element, leaf, child}
use ashe.Config.Parser.{load}
use ashe.Config.Writer.{save}
use ashe.Config.RoundTrip.{IsName, StorableAll}
use ashe.Config.RoundTrip.Whole.{load-save}

abbrev number : Element
number = element (codes "nr") (codes "-1.5" ∷ []) leaf

abbrev array : Element
array = element (codes "array") (codes "a # b" ∷ codes "7" ∷ codes "{;" ∷ []) leaf

abbrev config : Elements
config = child number (child (element (codes "object") [] (child array (child number leaf))) leaf)

nr-IsName : IsName (codes "nr")
nr-IsName = ground arith

config-StorableAll : StorableAll config
config-StorableAll = ground arith

load-save_example : load 40 (save config) ≡ some config
load-save_example = load-save config 40 (omega arith) config-StorableAll

-- The file that the class's comment shows, in part.
sample :
    load 40 (codes "a = [1,,3] # c\n o = { s = \"it = ;\"; }")
    ≡ some (
        child (element (codes "a") (codes "1" ∷ [] ∷ codes "3" ∷ []) leaf) (
          child
            (element (codes "o") [] (child (element (codes "s") (codes "it = ;" ∷ []) leaf) leaf))
            leaf))
unfolding load
sample = refl

-- An empty value is written as nothing, and is read back as the semicolon behind it.
empty_value :
    load 40 (save (child (element (codes "a") ([] ∷ []) leaf) leaf))
    ≡ some (child (element (codes "a") (codes ";" ∷ []) leaf) leaf)
unfolding load save
empty_value = refl
