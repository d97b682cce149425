-- ===== src/Tests/LinkedLists.antt =====
-- Tests of list.c.
use cs140_operating_systems.Base.{◌≡◌, some, [], ◌∷◌, arith}
use cs140_operating_systems.LinkedList.{Links, Sentinels, list_init, list_push_back, list_pop_front}
use cs140_operating_systems.LinkedList.Chain.{Holds, list_init-Holds}
use cs140_operating_systems.LinkedList.Insert.{list_push_back-Holds}
use cs140_operating_systems.LinkedList.Remove.{list_pop_front-Holds}

abbrev ends : Sentinels
ends = record { head = 1; tail = 2 }

abbrev no_links : Links
no_links = record { prev = λ _. 0; next = λ _. 0 }

empty : Links
empty = list_init no_links ends

empty-Holds : Holds empty ends []
unfolding empty
empty-Holds = list_init-Holds no_links ends (omega arith) (omega arith) (omega arith)

-- The list of the element 5.
one_element : (h : Links) × (list_push_back empty ends 5 ≡ some h) × Holds h ends (5 ∷ [])
one_element =
    list_push_back-Holds empty ends [] 5 empty-Holds (omega arith)
      ((λ e. omega (arith, e)), ((λ e. omega (arith, e)), tt))

abbrev one : Links
one = one_element.0

list_pop_front-Holds_example :
    (h' : Links) × (list_pop_front one ends ≡ some (h', 5)) × Holds h' ends []
list_pop_front-Holds_example = list_pop_front-Holds one ends 5 [] one_element.2
