-- ===== src/Lib.antt =====
-- podio: an event data model toolkit. A Frame holds the collections of an event by name; it unpacks
-- them from raw data that a reader got from a file, evolves them to the current schema, gives them
-- their IDs and resolves what they refer to. A writer prepares the collections and stores them.
--
-- The modules and the parts of the program that they model:
--   IdTable        CollectionIDTable: names and IDs (src/CollectionIDTable.cc)
--   Parameters     GenericParameters: named vectors of four types (include/podio/GenericParameters.h)
--   Evolution      SchemaEvolution: functions from old buffers to new (src/SchemaEvolution.cc)
--   BufferFactory  CollectionBufferFactory: functions that create buffers
--                  (src/CollectionBufferFactory.cc)
--   SharedPtr      MaybeSharedPtr: the reference counts behind every handle
--                  (include/podio/utilities/MaybeSharedPtr.h)
--   Frame          Frame and FrameModel (include/podio/Frame.h); Frame.Data has the interface to raw
--                  data with ROOTFrameData (src/ROOTFrameData.cc)
--   Links          LinkCollection (include/podio/detail/LinkCollectionImpl.h); Links.Storage is
--                  LinkCollectionData (include/podio/detail/LinkCollectionData.h)
--   Navigator      LinkNavigator: lookups of links from either side (include/podio/LinkNavigator.h)
--   DataSource     the source of an RDataFrame (src/DataSource.cc)
--   Toc            the table of contents of SIO files, and how SIOReader walks through them
--                  (src/SIOBlock.cc, src/SIOReader.cc, src/SIOWriter.cc)
--   Blocks         the blocks of parameters and of collection IDs in SIO files (src/SIOBlock.cc)
--   Registry       DatamodelRegistry with the collector and the holder of definitions
--                  (src/DatamodelRegistry.cc, src/DatamodelRegistryIOHelpers.cc)
--   SioData        SIOFrameData: raw data of SIO files with its blocks (src/SIOFrameData.cc)
--   SioWriter      SIOWriter with the helpers that make its blocks, and the factory of blocks
--                  (src/SIOWriter.cc, src/sioUtils.h, include/podio/SIOBlock.h)
--   Libraries      SIOBlockLibraryLoader: the search for libraries (src/SIOBlock.cc)
--   RootUtils      the helpers of the ROOT readers and writers (src/rootUtils.h)
--   RootWriter     ROOTWriter: the categories of a file and writing to them (src/ROOTWriter.cc)
--   RootReader     ROOTReader: the categories of files and reading them (src/ROOTReader.cc)
--   RootLegacy     ROOTLegacyReader: files of the layout before Frames (src/ROOTLegacyReader.cc)
--   NtupleReader   RNTupleReader: the entries of several files as one sequence (src/RNTupleReader.cc)
--   NtupleWriter   RNTupleWriter: the models of categories and writing to them (src/RNTupleWriter.cc)
--   Version        versions of podio and their encoding (podioVersion.in.h)
--   UserData       UserDataCollection (include/podio/UserDataCollection.h)
--   Ranges         RelationRange (include/podio/RelationRange.h)
--   Formats        the choice of readers and writers (src/Reader.cc, src/Writer.cc)
--   Dump           the arguments of podio-dump (tools/src/podio-dump-tool.cpp,
--                  tools/src/argparseUtils.h) and glob patterns (src/Glob.cc)
-- Links.Handle has the handles Link and MutableLink (include/podio/detail/Link.h).
--
-- Frame uses IdTable and Evolution; RootReader and NtupleReader make the RootFrameData that a Frame
-- takes; RootWriter and NtupleWriter get the
-- collections that a Frame prepared for writing; BufferFactory makes the buffers that Frame.Data holds; Links is
-- the collection that the program itself implements, and the object of the Frame's collections
-- otherwise is generated code, which is a record of functions (Frame.Collections).
--
-- Functions carry the names of the source in snake case. State is passed along explicitly: each
-- operation takes the state and gives the new one. What a call ends in is an Outcome: a value, an
-- exception, or undefined behaviour such as an access out of bounds. Unsigned integers are natural
-- numbers with their wrap-around written out, where the source computes with them; a signed 32-bit
-- integer is its two's complement. Standard containers are lists: std::map a sorted list of pairs,
-- std::unordered_map a list of pairs whose order stands for the unspecified order of iteration.
--
-- The fuel of Frame.do_get stands for its nested calls when a collection refers to others. Each nested
-- call that goes on has taken buffers out of the raw data, so one more than the number of collections
-- in the raw data is enough, which is proved. RootUtils.set_difference walks two lists with one more
-- round than they have elements, and each round takes one of them. Base.to_string writes at most 20
-- digits, which hold any 64-bit number.
--
-- Not modelled: the insides of ROOT, of the SIO library and of Arrow, whose trees, branches, readers,
-- devices and blocks are records of functions here; the Arrow converters and the legacy reader of
-- SIO files; the generated collections; printing; the Python bindings.
-- Threads are not modelled: where the program locks a mutex for the whole of an operation the
-- operation is one step. The hash of names is a third-party function, and a parameter.
mod Base
mod Tests
pub mod IdTable
pub mod Parameters
pub mod Evolution
pub mod BufferFactory
pub mod SharedPtr
pub mod Registry
pub mod Frame
pub mod Libraries
pub mod Links
pub mod Navigator
pub mod DataSource
pub mod Toc
pub mod Blocks
pub mod SioData
pub mod SioWriter
pub mod RootUtils
pub mod RootWriter
pub mod Version
pub mod RootLegacy
pub mod RootReader
pub mod NtupleReader
pub mod NtupleWriter
pub mod Dump
pub mod Formats
pub mod UserData
pub mod Ranges
